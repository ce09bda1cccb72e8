-- ===== src/LayerFile/Header.antt =====
-- A layer file is read as it was written.
use linyaps_rust.Common.{
  ℕ, zero, suc, ◌+◌, ◌-◌, ◌≤◌, ◌<◌, ◌≡◌, refl, ap, sym, ◌∙◌, leb, ltb, starts_with, some, List, [],
  ◌∷◌, ◌++◌, Bool, true, false, length, take, drop, take-append, drop-append, length-append, Result,
  ok, err, ensure, map_err, ◌>>◌, bind-succeeds, inl, inr, Bool-cases, arith,
}
use linyaps_rust.Architecture.{from_le_bytes}
use linyaps_rust.LayerFile.{
  magic_prefix, magic_length, u32_limit, invalid_magic, invalid_metadata_length, json, read_exact,
  is_magic, read_header, zeros, to_le_bytes, layer_bytes,
}

from_le_bytes-to_le_bytes : (n : ℕ) → n < u32_limit → from_le_bytes (to_le_bytes n) ≡ n
from_le_bytes-to_le_bytes n h = omega (arith, h)

read_header-run :
    {E I : Type 0} (parse : List ℕ → Result E I) (file : List ℕ) (info : I) (n : ℕ)
    → 44 + n ≤ length file
    → is_magic (take 40 file) ≡ true
    → from_le_bytes (take 4 (drop 40 file)) ≡ n
    → parse (take n (drop 44 file)) ≡ ok info
    → read_header parse file ≡ ok (info, 44 + n)
unfolding read_header
read_header-run parse file info n h m l p =
    let a : leb 40 (length file) ≡ true = ground arith in
    let b : leb 44 (length file) ≡ true = ground arith in
    let c : leb n (length file - 44) ≡ true = ground arith in
    let d : leb (44 + n) (length file) ≡ true = ground arith in rw (a, m, b, l, c, d, p) refl

abbrev head_bytes : List ℕ
head_bytes = magic_prefix ++ zeros (magic_length - length magic_prefix)

room :
    (metadata payload : List ℕ)
    → 44 + length metadata
      ≤ length (head_bytes ++ (to_le_bytes (length metadata) ++ (metadata ++ payload)))
room metadata payload = omega (arith, length-append metadata payload)

drop_nil : (n : ℕ) → drop {A = ℕ} n [] ≡ []
drop_nil zero = refl
drop_nil (suc n) = refl

drop_more : (a b : ℕ) (xs : List ℕ) → drop (a + b) xs ≡ drop b (drop a xs)
drop_more zero b xs = let e : 0 + b ≡ b = omega arith in rw e refl
drop_more (suc a) b [] = let e : suc a + b ≡ suc (a + b) = omega arith in rw e (sym (drop_nil b))
drop_more (suc a) b (x ∷ xs) =
    let e : suc a + b ≡ suc (a + b) = omega arith in rw e (drop_more a b xs)

-- A file that `layer_bytes` gives is read back, its metadata as the parser reads them, and the payload
-- is what stands from the returned offset on.
pub read_header-layer_bytes :
    {E I : Type 0} (parse : List ℕ → Result E I) (metadata payload file : List ℕ) (info : I)
    → layer_bytes metadata payload ≡ some file
    → parse metadata ≡ ok info
    → (read_header parse file ≡ ok (info, 44 + length metadata))
      × (drop (44 + length metadata) file ≡ payload)
unfolding read_header layer_bytes is_magic starts_with
read_header-layer_bytes parse metadata payload file info h p =
    elim (Bool-cases (ltb (length metadata) u32_limit)) [
      | inr e ↦ absurd (ground arith)
      | inl e ↦
          let rest = metadata ++ payload in
          let bytes = head_bytes ++ (to_le_bytes (length metadata) ++ rest) in
          let same : bytes ≡ file = (let q = rw e at h in ground arith) in
          rw (← same) (
            read_header-run parse bytes info (length metadata) (room metadata payload) refl
                (from_le_bytes-to_le_bytes (length metadata) (ground arith))
                (rw (take-append metadata payload) p),
            drop_more 44 (length metadata) bytes ∙ drop-append metadata payload,
          )
    ]

guarded :
    {E A : Type 0} (b : Bool) (e : E) (m : Result E A) (a : A)
    → (ensure b e >> m) ≡ ok a
    → (b ≡ true) × (m ≡ ok a)
guarded true e m a h = (refl, h)
guarded false e m a h = absurd (ground arith)

read_exact-ok :
    {E : Type 0} (file : List ℕ) (at n : ℕ) (r : List ℕ × ℕ)
    → read_exact {E = E} file at n ≡ ok r
    → (at + n ≤ length file) × ((take n (drop at file), at + n) ≡ r)
read_exact-ok file at n r h = elim (Bool-cases (leb (at + n) (length file))) [
  | inl e ↦ (ground arith, (let k = rw e at h in ground arith))
  | inr e ↦ absurd (let k = rw e at h in ground arith)
]

map_err-json :
    {E I : Type 0} (m : Result E I) (i : I) → map_err (λ (e : E). json e) m ≡ ok i → m ≡ ok i
map_err-json (ok j) i h = ground arith
map_err-json (err e) i h = absurd (ground arith)

-- Where a header is read, the metadata lie inside the file, as long as the length field says, the parser
-- accepted them, and the offset is the place behind them.
pub read_header-ok :
    {E I : Type 0} (parse : List ℕ → Result E I) (file : List ℕ) (info : I) (offset : ℕ)
    → read_header parse file ≡ ok (info, offset)
    → (44 ≤ offset)
      × (offset ≤ length file)
      × (offset ≡ 44 + from_le_bytes (take 4 (drop 40 file)))
      × (parse (take (offset - 44) (drop 44 file)) ≡ ok info)
unfolding read_header
read_header-ok parse file info offset h =
    let (r1, k1, e1) = bind-succeeds _ (read_exact file 0 40) h in
    let (m, k2) = guarded (is_magic r1.0) invalid_magic _ (info, offset) k1 in
    let (r2, k3, e2) = bind-succeeds _ (read_exact file r1.1 4) k2 in
    let (b, k4) =
      guarded (leb (from_le_bytes r2.0) (length file - 44))
        (invalid_metadata_length (from_le_bytes r2.0)) _ (info, offset) k3 in
    let (r3, k5, e3) = bind-succeeds _ (read_exact file r2.1 (from_le_bytes r2.0)) k4 in
    let (i, k6, e4) = bind-succeeds _ (map_err json (parse r3.0)) k5 in
    let f1 = read_exact-ok file 0 40 r1 e1 in
    let p1 : r1.1 ≡ 40 = sym (ap (λ (x : List ℕ × ℕ). x.1) f1.1) in
    let f2 = read_exact-ok file r1.1 4 r2 e2 in
    let b2 : r2.0 ≡ take 4 (drop 40 file) = rw (← f2.1, p1) refl in
    let p2 : r2.1 ≡ 44 = rw (← f2.1, p1) refl in
    let f3 = read_exact-ok file r2.1 (from_le_bytes r2.0) r3 e3 in
    let b3 : r3.0 ≡ take (from_le_bytes r2.0) (drop 44 file) = rw (← f3.1, p2) refl in
    let parsed : parse r3.0 ≡ ok i = map_err-json (parse r3.0) i e4 in
    let same : i ≡ info = ground arith in
    let end : offset ≡ 44 + from_le_bytes r2.0 = ground arith in
    let rest : offset - 44 ≡ from_le_bytes r2.0 = omega (arith, end) in
    (
      omega (arith, end),
      (let room = rw p2 at f3.0 in omega (arith, room, end)),
      end ∙ ap (λ l. 44 + from_le_bytes l) b2,
      rw (rest, ← b3, parsed, same) refl,
    )
