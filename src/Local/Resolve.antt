-- ===== src/Local/Resolve.antt =====
-- What `resolve_local` chooses.
use linyaps_rust.Common.{
  ◌≡◌, refl, sym, ◌∙◌, Option, none, some, List, [], ◌∷◌, Bool, true, false, ◌&&◌, any, retain,
  Result, ok, err, ok_or, map_err, bind-succeeds, Ordering, sort_by, is_gt, reverse_order, Every,
  Every-map, Every-find, Every-Member, Member, IsPreorder, sort_by-IsSortedBy, find-IsSortedBy,
  any-sort_by, Every-sort_by, inl, inr, Bool-cases, arith, Every-retain,
}
use linyaps_rust.Version.V2.{Semver, compare_v2}
use linyaps_rust.Version.Parse.{Version, v1, v2, fallback, parse_version}
use linyaps_rust.Version.Compare.{Chain, partial_cmp, compare_v2-Chain, compare_v2-swap}
use linyaps_rust.Reference.{Reference, FuzzyReference, show_fuzzy}
use linyaps_rust.Cache.{RepositoryCacheLayersItem, RepositoryCacheStore, existing_layers}
use linyaps_rust.Local.{
  RepositoryError, version_error, compatible_layer_not_found, requested, or_equal, is_candidate,
  parse_candidates, later_first, satisfies, choose, resolve_among, resolve_local,
  reference_from_info,
}

pub ok_or-ok :
    {A : Type 0} (o : Option A) (e : RepositoryError) (a : A) → ok_or o e ≡ ok a → o ≡ some a
ok_or-ok none e a h = absurd (ground arith)
ok_or-ok (some b) e a h = ground arith

pub map_err-ok :
    {E F A : Type 0} (f : E → F) (m : Result E A) (a : A) → map_err f m ≡ ok a → m ≡ ok a
map_err-ok f (ok b) a h = ground arith
map_err-ok f (err e) a h = absurd (ground arith)

abbrev pub IsSemantic : Version → Type 0
IsSemantic (v2 w) = Unit {0}
IsSemantic w = ⊥

swap_not_gt : (o : Ordering) → is_gt o ≡ true → is_gt (reverse_order o) ≡ false
swap_not_gt o h = ground arith

not_gt-Chain :
    (ab bc ac : Ordering) → Chain ab bc ac → is_gt ab ≡ false → is_gt bc ≡ false → is_gt ac ≡ false
not_gt-Chain Ordering.lt Ordering.lt ac (l, e, f) h k = rw (l refl refl) refl
not_gt-Chain Ordering.lt Ordering.eq ac (l, e, f) h k = rw (f refl) refl
not_gt-Chain Ordering.eq bc ac (l, e, f) h k = rw (e refl) k
not_gt-Chain Ordering.lt Ordering.gt ac (l, e, f) h k = absurd (ground arith)
not_gt-Chain Ordering.gt bc ac (l, e, f) h k = absurd (ground arith)

module _ {R : Type 0} (semver : Semver) where
  -- The candidate that a request chose: it satisfies the request, and gives the reference.
  pub record Chosen (s : RepositoryCacheStore R) (fuzzy : FuzzyReference) (semantic : Bool)
      (r : Reference) : Type 0 where
    pub candidates : List (Version × RepositoryCacheLayersItem R)
    pub wanted : Option Version
    pub best : Version × RepositoryCacheLayersItem R
    pub are_candidates :
        parse_candidates semver (retain (is_candidate fuzzy) (existing_layers s)) ≡ ok candidates
    pub is_wanted : requested fuzzy.version (parse_version semver) ≡ ok wanted
    pub is_found : choose semver wanted semantic candidates ≡ some best
    pub gives : reference_from_info semver best.1.info ≡ ok r

  resolve_among-ok :
      (fuzzy : FuzzyReference) (semantic : Bool) (s : RepositoryCacheStore R)
      (cs : List (Version × RepositoryCacheLayersItem R)) (r : Reference)
      → parse_candidates semver (retain (is_candidate fuzzy) (existing_layers s)) ≡ ok cs
      → resolve_among semver fuzzy semantic cs ≡ ok r
      → Chosen s fuzzy semantic r
  unfolding resolve_among
  resolve_among-ok fuzzy semantic s [] r p h = absurd (ground arith)
  resolve_among-ok fuzzy semantic s (c ∷ cs) r p h =
      let (w, k, e) = bind-succeeds _ (requested fuzzy.version (parse_version semver)) h in
      let (b, g, f) =
        bind-succeeds _
          (ok_or (choose semver w semantic (c ∷ cs))
            (compatible_layer_not_found (show_fuzzy fuzzy)))
          k in
      record {
        candidates = c ∷ cs;
        wanted = w;
        best = b;
        are_candidates = p;
        is_wanted = e;
        is_found = ok_or-ok _ _ b f;
        gives = g;
      }

  pub resolve_local-ok :
      (s : RepositoryCacheStore R) (fuzzy : FuzzyReference) (semantic : Bool) (r : Reference)
      → resolve_local semver s fuzzy semantic ≡ ok r
      → Chosen s fuzzy semantic r
  unfolding resolve_local
  resolve_local-ok s fuzzy semantic r h =
      let (cs, k, e) =
        bind-succeeds (resolve_among semver fuzzy semantic)
          (parse_candidates semver (retain (is_candidate fuzzy) (existing_layers s))) h in
      resolve_among-ok fuzzy semantic s cs r e k

  -- A candidate, by where it comes from.
  abbrev pub IsCandidate :
      RepositoryCacheStore R → FuzzyReference → Version × RepositoryCacheLayersItem R → Type 0
  IsCandidate s fuzzy c =
      Member (existing_layers s) c.1
      × (is_candidate fuzzy c.1 ≡ true)
      × (parse_version semver c.1.info.version ≡ ok c.0)

  parse_candidates-Every :
      (P : RepositoryCacheLayersItem R → Type 0) (xs : List (RepositoryCacheLayersItem R))
      (cs : List (Version × RepositoryCacheLayersItem R))
      → Every P xs
      → parse_candidates semver xs ≡ ok cs
      → Every (λ c. P c.1 × (parse_version semver c.1.info.version ≡ ok c.0)) cs
  unfolding parse_candidates
  parse_candidates-Every P [] cs h e = let q : [] ≡ cs = ground arith in rw (← q) tt
  parse_candidates-Every P (x ∷ xs) cs h e =
      let (v, k, a) =
        bind-succeeds _ (map_err version_error (parse_version semver x.info.version)) e in
      let (rest, l, b) = bind-succeeds _ (parse_candidates semver xs) k in
      let q : (v, x) ∷ rest ≡ cs = ground arith in
      rw (← q) ((h.0, map_err-ok _ _ _ a), parse_candidates-Every P xs rest h.1 b)

  are_candidates-Every :
      (s : RepositoryCacheStore R) (fuzzy : FuzzyReference)
      (cs : List (Version × RepositoryCacheLayersItem R))
      → parse_candidates semver (retain (is_candidate fuzzy) (existing_layers s)) ≡ ok cs
      → Every (IsCandidate s fuzzy) cs
  are_candidates-Every s fuzzy cs e =
      Every-map _ (IsCandidate s fuzzy) cs (λ c (p, q). (p.0, p.1, q))
        (parse_candidates-Every (λ x. Member (existing_layers s) x × (is_candidate fuzzy x ≡ true))
          (retain (is_candidate fuzzy) (existing_layers s)) cs
          (Every-retain (Member (existing_layers s)) (is_candidate fuzzy) (existing_layers s)
            (Every-Member (existing_layers s)))
          e)

  -- The layer that was chosen is one of the repository's, and satisfies the request.
  pub Chosen-IsCandidate :
      (s : RepositoryCacheStore R) (fuzzy : FuzzyReference) (semantic : Bool) (r : Reference)
      (c : Chosen s fuzzy semantic r)
      → IsCandidate s fuzzy c.best × (satisfies semver semantic c.wanted c.best.0 ≡ true)
  unfolding choose
  Chosen-IsCandidate s fuzzy semantic r c =
      Every-find (IsCandidate s fuzzy) (λ x. satisfies semver semantic c.wanted x.0)
        (sort_by (later_first semver) c.candidates) c.best
        (Every-sort_by (later_first semver) (IsCandidate s fuzzy) c.candidates
          (are_candidates-Every s fuzzy c.candidates c.are_candidates))
        c.is_found

  -- What holds of every existing layer holds of the one that was chosen.
  pub Chosen-Every :
      (P : RepositoryCacheLayersItem R → Type 0) (s : RepositoryCacheStore R)
      (fuzzy : FuzzyReference) (semantic : Bool) (r : Reference) (c : Chosen s fuzzy semantic r)
      → Every P (existing_layers s)
      → P c.best.1
        × (is_candidate fuzzy c.best.1 ≡ true)
        × (parse_version semver c.best.1.info.version ≡ ok c.best.0)
  unfolding choose
  Chosen-Every P s fuzzy semantic r c h =
      let Q : Version × RepositoryCacheLayersItem R → Type 0 = λ x.
        (P x.1 × (is_candidate fuzzy x.1 ≡ true))
        × (parse_version semver x.1.info.version ≡ ok x.0) in
      let (q, fits) =
        Every-find Q (λ x. satisfies semver semantic c.wanted x.0)
          (sort_by (later_first semver) c.candidates) c.best
          (Every-sort_by (later_first semver) Q c.candidates (
            parse_candidates-Every (λ x. P x × (is_candidate fuzzy x ≡ true))
              (retain (is_candidate fuzzy) (existing_layers s)) c.candidates
              (Every-retain P (is_candidate fuzzy) (existing_layers s) h) c.are_candidates))
          c.is_found in
      (q.0.0, q.0.1, q.1)

  later_first-total :
      (x y : Version × RepositoryCacheLayersItem R)
      → IsSemantic x.0
      → IsSemantic y.0
      → is_gt (later_first semver x y) ≡ true
      → is_gt (later_first semver y x) ≡ false
  unfolding later_first partial_cmp
  later_first-total (v2 a, x) (v2 b, y) p q h =
      rw (compare_v2-swap semver b a) (swap_not_gt (compare_v2 semver b a) h)
  later_first-total (v2 a, x) (v1 b, y) p q h = absurd q
  later_first-total (v2 a, x) (fallback b, y) p q h = absurd q
  later_first-total (v1 a, x) c p q h = absurd p
  later_first-total (fallback a, x) c p q h = absurd p

  later_first-transitive :
      (x y z : Version × RepositoryCacheLayersItem R)
      → IsSemantic x.0
      → IsSemantic y.0
      → IsSemantic z.0
      → is_gt (later_first semver x y) ≡ false
      → is_gt (later_first semver y z) ≡ false
      → is_gt (later_first semver x z) ≡ false
  unfolding later_first partial_cmp
  later_first-transitive (v2 a, x) (v2 b, y) (v2 c, z) p q r h k =
      not_gt-Chain _ _ _ (compare_v2-Chain semver c b a) k h
  later_first-transitive (v2 a, x) (v2 b, y) (v1 c, z) p q r h k = absurd r
  later_first-transitive (v2 a, x) (v2 b, y) (fallback c, z) p q r h k = absurd r
  later_first-transitive (v2 a, x) (v1 b, y) z p q r h k = absurd q
  later_first-transitive (v2 a, x) (fallback b, y) z p q r h k = absurd q
  later_first-transitive (v1 a, x) y z p q r h k = absurd p
  later_first-transitive (fallback a, x) y z p q r h k = absurd p

  later_first_refl :
      (x : Version × RepositoryCacheLayersItem R)
      → IsSemantic x.0
      → is_gt (later_first semver x x) ≡ false
  later_first_refl x h = elim (Bool-cases (is_gt (later_first semver x x))) [
    | inl e ↦ later_first-total x x h h e
    | inr e ↦ e
  ]

  later_first-IsPreorder : IsPreorder (later_first {R = R} semver) (λ c. IsSemantic c.0)
  later_first-IsPreorder = record { total = later_first-total; transitive = later_first-transitive }

  newest_among :
      (wanted : Option Version) (semantic : Bool)
      (cs : List (Version × RepositoryCacheLayersItem R))
      (best : Version × RepositoryCacheLayersItem R)
      → Every (λ c. IsSemantic c.0) cs
      → choose semver wanted semantic cs ≡ some best
      → any
          (λ c.
            satisfies semver semantic wanted c.0
            && is_gt (or_equal (partial_cmp semver c.0 best.0)))
          cs
        ≡ false
  unfolding choose later_first
  newest_among wanted semantic cs best all found =
      let sorted =
        sort_by-IsSortedBy (later_first semver) (λ c. IsSemantic c.0) cs later_first-IsPreorder
          all in
      let (is_semantic, fits) =
        Every-find (λ c. IsSemantic c.0) (λ c. satisfies semver semantic wanted c.0)
          (sort_by (later_first semver) cs) best
          (Every-sort_by (later_first semver) (λ c. IsSemantic c.0) cs all) found in
      sym (
        any-sort_by (later_first semver)
          (λ c. satisfies semver semantic wanted c.0 && is_gt (later_first semver best c)) cs)
      ∙ find-IsSortedBy (later_first semver) (λ c. satisfies semver semantic wanted c.0)
          (sort_by (later_first semver) cs) best sorted (later_first_refl best is_semantic) found

  -- Where the candidates of a request have semantic versions, the one that `resolve_local` chooses is a
  -- layer of the repository that satisfies the request, its description gives the reference, and no
  -- candidate that satisfies the request has a later version.
  pub resolve_local_newest :
      (s : RepositoryCacheStore R) (fuzzy : FuzzyReference) (semantic : Bool) (r : Reference)
      (cs : List (Version × RepositoryCacheLayersItem R))
      → parse_candidates semver (retain (is_candidate fuzzy) (existing_layers s)) ≡ ok cs
      → Every (λ c. IsSemantic c.0) cs
      → resolve_local semver s fuzzy semantic ≡ ok r
      → (wanted : Option Version) × (best : Version × RepositoryCacheLayersItem R) × (requested
            fuzzy.version
            (parse_version semver)
          ≡ ok wanted)
        × IsCandidate s fuzzy best
        × (satisfies semver semantic wanted best.0 ≡ true)
        × (reference_from_info semver best.1.info ≡ ok r)
        × (any
              (λ c.
                satisfies semver semantic wanted c.0
                && is_gt (or_equal (partial_cmp semver c.0 best.0)))
              cs
            ≡ false)
  resolve_local_newest s fuzzy semantic r cs p all h =
      let c = resolve_local-ok s fuzzy semantic r h in
      let same : c.candidates ≡ cs = (let q = sym c.are_candidates ∙ p in ground arith) in
      let all' : Every (λ x. IsSemantic x.0) c.candidates = rw same all in
      let (origin, fits) = Chosen-IsCandidate s fuzzy semantic r c in
      (
        c.wanted,
        c.best,
        c.is_wanted,
        origin,
        fits,
        c.gives,
        rw (← same) (newest_among c.wanted semantic c.candidates c.best all' c.is_found),
      )
