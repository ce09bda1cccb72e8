-- ===== src/JsonPatch/Pointer.antt =====
-- Pointers are parsed exactly from their print.
use linyaps_rust.Common.{
  ℕ, ◌≡◌, refl, ap, sym, ◌∙◌, ◌==◌, ◌↔◌, Text, split, join, split-join, join-split, split-cons,
  split-AllLack, Lacks, AllLack, List, [], ◌∷◌, true, false, if◌then◌else◌, Result, ok, err,
  bind-succeeds, arith, inl, inr, Bool-cases,
}
use mathlib.Core.Path.{ap₂}
use linyaps_rust.JsonPatch.{
  PatchError, decoded_cons, decode_pointer_token, decode_tokens, parse_pointer,
}

-- RFC 6901: `~` is written `~0`, and `/` is written `~1`.
unfoldable pub encode_token : Text → Text
encode_token [] = []
encode_token (c ∷ s) =
    let rest = encode_token s in
    if c == b'~' then b'~' ∷ b'0' ∷ rest else (if c == b'/' then b'~' ∷ b'1' ∷ rest else c ∷ rest)

unfoldable pub encode_tokens : List Text → List Text
unfolding encode_token
encode_tokens [] = []
encode_tokens (t ∷ ts) = encode_token t ∷ encode_tokens ts

unfoldable pub print_pointer : List Text → Text
unfolding encode_tokens join
print_pointer [] = []
print_pointer (t ∷ ts) = b'/' ∷ join (b'/' ∷ []) (encode_tokens (t ∷ ts))

decode-plain :
    (c : ℕ) (s : Text)
    → (c == b'~') ≡ false
    → decode_pointer_token (c ∷ s) ≡ decoded_cons c (decode_pointer_token s)
unfolding decode_pointer_token
decode-plain c [] h = rw h refl
decode-plain c (d ∷ s) h = rw h refl

decode-tilde :
    (s : Text) → decode_pointer_token (b'~' ∷ b'0' ∷ s) ≡ decoded_cons b'~' (decode_pointer_token s)
unfolding decode_pointer_token
decode-tilde s = refl

decode-slash :
    (s : Text) → decode_pointer_token (b'~' ∷ b'1' ∷ s) ≡ decoded_cons b'/' (decode_pointer_token s)
unfolding decode_pointer_token
decode-slash s = refl

encode-tilde : (s : Text) → encode_token (b'~' ∷ s) ≡ b'~' ∷ b'0' ∷ encode_token s
unfolding encode_token
encode-tilde s = refl

encode-slash : (s : Text) → encode_token (b'/' ∷ s) ≡ b'~' ∷ b'1' ∷ encode_token s
unfolding encode_token
encode-slash s = refl

encode-plain :
    (c : ℕ) (s : Text)
    → (c == b'~') ≡ false
    → (c == b'/') ≡ false
    → encode_token (c ∷ s) ≡ c ∷ encode_token s
unfolding encode_token
encode-plain c s h k = rw (h, k) refl

encode_empty : encode_token [] ≡ []
unfolding encode_token
encode_empty = refl

decode_empty : decode_pointer_token [] ≡ ok []
unfolding decode_pointer_token
decode_empty = refl

decode-encode : (s : Text) → decode_pointer_token (encode_token s) ≡ ok s
decode-encode [] = rw encode_empty decode_empty
decode-encode (c ∷ s) = elim (Bool-cases (c == b'~')) [
  | inl tilde ↦
      let e : c ≡ b'~' = ground arith in
      rw (e, encode-tilde s, decode-tilde (encode_token s), decode-encode s) refl
  | inr other ↦ elim (Bool-cases (c == b'/')) [
    | inl slash ↦
        let e : c ≡ b'/' = ground arith in
        rw (e, encode-slash s, decode-slash (encode_token s), decode-encode s) refl
    | inr plain ↦
        rw (encode-plain c s other plain, decode-plain c (encode_token s) other, decode-encode s)
          refl
  ]
]

encode-Lacks : (s : Text) → Lacks b'/' (encode_token s)
unfolding encode_token
encode-Lacks [] = tt
encode-Lacks (c ∷ s) = elim (Bool-cases (c == b'~')) [
  | inl tilde ↦ rw tilde (refl, (refl, encode-Lacks s))
  | inr other ↦ elim (Bool-cases (c == b'/')) [
    | inl slash ↦ rw (other, slash) (refl, (refl, encode-Lacks s))
    | inr plain ↦ rw (other, plain) (plain, encode-Lacks s)
  ]
]

encode_tokens-AllLack : (ts : List Text) → AllLack b'/' (encode_tokens ts)
unfolding encode_tokens
encode_tokens-AllLack [] = tt
encode_tokens-AllLack (t ∷ ts) = (encode-Lacks t, encode_tokens-AllLack ts)

decode_tokens-encode : (ts : List Text) → decode_tokens (encode_tokens ts) ≡ ok ts
unfolding decode_tokens encode_tokens
decode_tokens-encode [] = refl
decode_tokens-encode (t ∷ ts) = rw (decode-encode t, decode_tokens-encode ts) refl

split-print :
    (t : Text) (ts : List Text)
    → split b'/' (join (b'/' ∷ []) (encode_tokens (t ∷ ts))) ≡ encode_tokens (t ∷ ts)
unfolding encode_tokens
split-print t ts =
    split-join b'/' (encode_token t) (encode_tokens ts) (encode-Lacks t, encode_tokens-AllLack ts)

parse-print : (ts : List Text) → parse_pointer (print_pointer ts) ≡ ok ts
unfolding parse_pointer print_pointer
parse-print [] = refl
parse-print (t ∷ ts) = rw (split-print t ts) (decode_tokens-encode (t ∷ ts))

decoded_cons-ok :
    (c : ℕ) (r : Result PatchError Text) (s : Text)
    → decoded_cons c r ≡ ok s
    → (u : Text) × (r ≡ ok u) × (c ∷ u ≡ s)
decoded_cons-ok c (ok u) s h = (u, refl, ground arith)
decoded_cons-ok c (err e) s h = absurd (ground arith)

encode-decode : (t s : Text) → Lacks b'/' t → decode_pointer_token t ≡ ok s → encode_token s ≡ t
unfolding decode_pointer_token
encode-decode [] s l h = let e : [] ≡ s = ground arith in rw (← e) encode_empty
encode-decode (c ∷ []) s l h =
    let other : (c == b'~') ≡ false = ground arith in
    let e : c ∷ [] ≡ s = ground arith in
    rw (← e) (encode-plain c [] other l.0 ∙ ap (λ x. c ∷ x) encode_empty)
encode-decode (c ∷ d ∷ t) s l h = elim (Bool-cases (c == b'~')) [
  | inr other ↦
      let (u, k, e) = decoded_cons-ok c (decode_pointer_token (d ∷ t)) s (rw other at h) in
      rw (← e) (encode-plain c u other l.0 ∙ ap (λ x. c ∷ x) (encode-decode (d ∷ t) u l.1 k))
  | inl tilde ↦ elim (Bool-cases (d == b'0')) [
    | inl zero_digit ↦
        let (u, k, e) =
          decoded_cons-ok b'~' (decode_pointer_token t) s (rw (tilde, zero_digit) at h) in
        let ih = encode-decode t u l.1.1 k in rw (← e, encode-tilde u, ih) (ground arith)
    | inr not_zero ↦
        let one : (d == b'1') ≡ true = ground arith in
        let (u, k, e) =
          decoded_cons-ok b'/' (decode_pointer_token t) s (rw (tilde, not_zero, one) at h) in
        let ih = encode-decode t u l.1.1 k in rw (← e, encode-slash u, ih) (ground arith)
  ]
]

encode-decode_tokens :
    (ps ts : List Text) → AllLack b'/' ps → decode_tokens ps ≡ ok ts → encode_tokens ts ≡ ps
unfolding decode_tokens encode_tokens
encode-decode_tokens [] ts l h = let e : [] ≡ ts = ground arith in rw (← e) refl
encode-decode_tokens (p ∷ ps) ts l h =
    let (s, h1, e1) = bind-succeeds _ (decode_pointer_token p) h in
    let (ss, h2, e2) = bind-succeeds _ (decode_tokens ps) h1 in
    let e : s ∷ ss ≡ ts = ground arith in
    rw (← e) (ap₂ (λ x xs. x ∷ xs) (encode-decode p s l.0 e1) (encode-decode_tokens ps ss l.1 e2))

print-tokens :
    (ps ts : List Text)
    → encode_tokens ts ≡ ps
    → ((ps ≡ []) → ⊥)
    → print_pointer ts ≡ b'/' ∷ join (b'/' ∷ []) ps
unfolding print_pointer encode_tokens
print-tokens ps [] e n = absurd (n (sym e))
print-tokens ps (t ∷ ts) e n = ap (λ x. b'/' ∷ join (b'/' ∷ []) x) e

split-nonempty : (s : Text) → (split b'/' s ≡ []) → ⊥
split-nonempty s h = let (p, ps, e) = split-cons b'/' s in absurd (ground arith)

print-parse : (p : Text) (ts : List Text) → parse_pointer p ≡ ok ts → print_pointer ts ≡ p
unfolding parse_pointer
print-parse [] ts h = let e : [] ≡ ts = ground arith in rw (← e) (unfold print_pointer in refl)
print-parse (c ∷ s) ts h =
    let slash : (c == b'/') ≡ true = ground arith in
    print-tokens (split b'/' s) ts
      (encode-decode_tokens (split b'/' s) ts (split-AllLack b'/' s) (rw slash at h))
      (split-nonempty s)
    ∙ rw (join-split b'/' s) (ground arith)

-- A pointer parses to a list of names exactly when it is the print of the list by RFC 6901, in which
-- each name stands behind a slash, with `~` written as `~0` and `/` as `~1`.
pub parse_pointer_iff :
    (p : Text) (ts : List Text) → (parse_pointer p ≡ ok ts) ↔ (print_pointer ts ≡ p)
parse_pointer_iff p ts = (print-parse p ts, λ e. rw (← e) (parse-print ts))
