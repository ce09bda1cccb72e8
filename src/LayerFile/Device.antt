-- ===== src/LayerFile/Device.antt =====
-- A device shows its section of the file and nothing else.
use linyaps_rust.Common.{
  ℕ, ◌+◌, ◌≤◌, ◌<◌, ◌%◌, ◌≡◌, refl, ltb, Option, none, some, List, true, false, not, ◌||◌, length,
  take, drop, ok, err, arith,
}
use linyaps_rust.Version.{i64_max, u64_limit}
use linyaps_rust.LayerFile.{OffsetDevice, out_of_bounds, new_device, read_exact_at, read_at}

new_device-inside :
    (file : List ℕ) (offset : ℕ) (size : Option ℕ) (d : OffsetDevice)
    → length file ≤ i64_max
    → new_device file offset size ≡ ok d
    → (d.file ≡ file) × (d.offset ≡ offset) × (offset + d.size ≤ length file)
unfolding new_device
new_device-inside file offset none d small h = ground arith
new_device-inside file offset (some size) d small h = ground arith

-- The section has the length that is asked for, or ends with the file.
new_device-size :
    (file : List ℕ) (offset : ℕ) (size : Option ℕ) (d : OffsetDevice)
    → new_device file offset size ≡ ok d
    → ((wanted : ℕ) → size ≡ some wanted → d.size ≡ wanted)
      × (size ≡ none → offset + d.size ≡ length file)
unfolding new_device
new_device-size file offset none d h = (λ wanted e. absurd (ground arith), λ e. ground arith)
new_device-size file offset (some n) d h = (λ wanted e. ground arith, λ e. absurd (ground arith))

fits :
    (a size total : ℕ)
    → a ≤ size
    → size ≤ total
    → total ≤ i64_max
    → not (ltb a u64_limit) || ltb size a ≡ false
fits a size total h k l = ground arith

beyond : (a size : ℕ) → size < a → not (ltb a u64_limit) || ltb size a ≡ true
beyond a size h = ground arith

inside_read :
    (file : List ℕ) (at n : ℕ)
    → at + n ≤ length file
    → read_exact_at file at n ≡ ok (take n (drop at file))
inside_read file at n h = ground arith

-- A device that is made of a file of at most `i64::MAX` bytes has the size that is asked for, or reaches
-- to the end of the file where none is, and reads exactly the bytes of this section: a range inside the
-- section is read from behind the offset and lies inside the file, without overflow, and any other range
-- is an error.
pub read_at-new_device :
    (file : List ℕ) (offset : ℕ) (size : Option ℕ) (d : OffsetDevice) (o n : ℕ)
    → length file ≤ i64_max
    → new_device file offset size ≡ ok d
    → ((wanted : ℕ) → size ≡ some wanted → d.size ≡ wanted)
      × (size ≡ none → offset + d.size ≡ length file)
      × (o + n ≤ d.size
          → (read_at d o n ≡ ok (take n (drop (offset + o) file))) × (offset + o + n ≤ length file))
      × (d.size < o + n → read_at d o n ≡ err (out_of_bounds o n d.size))
unfolding read_at
read_at-new_device file offset size d o n small h =
    let (f, s, inside) = new_device-inside file offset size d small h in
    let wrap : (o + n ≤ d.size) → (d.offset + o) % u64_limit ≡ offset + o =
      λ l. (rw s (omega (arith, small, inside, l))) in
    let (asked, rest) = new_device-size file offset size d h in
    (
      asked,
      rest,
      λ l. (
        rw (fits (o + n) d.size (length file) l (omega (arith, inside)) small, wrap l, f)
            (inside_read file (offset + o) n (omega (arith, inside, l))),
        omega (arith, inside, l),
      ),
      λ l. rw (beyond (o + n) d.size l) refl,
    )
