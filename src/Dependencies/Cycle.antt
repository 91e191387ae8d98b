-- ===== src/Dependencies/Cycle.antt =====
-- `would_create_cycle`: the search by a stack of pending versions and a set of seen ones.
use rpsd_config.Common.{
  ℕ, zero, suc, ◌+◌, ◌≤◌, ◌<◌, ◌≡◌, ◌≢◌, refl, Bool, true, false, Option, none, some, List, [], ◌∷◌,
  ◌++◌, length, length-append, count, In, In-append, exists_row-In, not, ap, ◌∙◌, ◌↔◌, ◌==◌, arith,
  Bool-cases, inl, inr, ◌⊎◌,
}
use rpsd_config.Dependencies.Graph.{Dependency, member, children, without, Reaches, here, step}

-- The loop, with fuel; the first pending version is the top of the stack. `none` means that the
-- fuel ran out.
unfoldable pub search_loop : List Dependency → ℕ → ℕ → List ℕ → List ℕ → Option Bool
search_loop edges dependent_id zero pending seen = none
search_loop edges dependent_id (suc fuel) [] seen = some false
search_loop edges dependent_id (suc fuel) (item ∷ pending) seen = elim (item == dependent_id) [
  | true ↦ some true
  | false ↦ elim (member item seen) [
    | true ↦ search_loop edges dependent_id fuel pending seen
    | false ↦ search_loop edges dependent_id fuel (children item edges ++ pending) (item ∷ seen)
  ]
]

-- Fuel for one round for each row and two more.
unfoldable pub would_create_cycle : List Dependency → ℕ → ℕ → Option ℕ → Option Bool
unfolding search_loop
would_create_cycle rows dependent_id prerequisite_id exclude_pk =
    let edges = without exclude_pk rows in
    search_loop edges dependent_id (length edges + 2) (prerequisite_id ∷ []) []

-- The rows whose dependent version has not been seen.
abbrev unseen : List ℕ → List Dependency → ℕ
unseen seen edges = count (λ (e : Dependency). not (member e.dependent_id seen)) edges

same_member : (a b : ℕ) (seen : List ℕ) → a ≡ b → member a seen ≡ member b seen
same_member a b seen e = rw e

unseen-cons :
    (item : ℕ) (seen : List ℕ) (edges : List Dependency)
    → member item seen ≡ false
    → unseen (item ∷ seen) edges + length (children item edges) ≡ unseen seen edges
unseen-cons item seen [] h = omega arith
unseen-cons item seen (e ∷ edges) h =
    ground (arith, unseen-cons item seen edges h, same_member e.dependent_id item seen)

unseen-le : (seen : List ℕ) (edges : List Dependency) → unseen seen edges ≤ length edges
unseen-le seen [] = omega arith
unseen-le seen (e ∷ edges) = ground (arith, unseen-le seen edges)

module _ (edges : List Dependency) (dependent_id fuel item : ℕ) (pending seen : List ℕ) where
  loop_found :
      (item == dependent_id) ≡ true
      → search_loop edges dependent_id (suc fuel) (item ∷ pending) seen ≡ some true
  unfolding search_loop
  loop_found e = ground arith

  loop_seen :
      (item == dependent_id) ≡ false
      → member item seen ≡ true
      → search_loop edges dependent_id (suc fuel) (item ∷ pending) seen
        ≡ search_loop edges dependent_id fuel pending seen
  unfolding search_loop
  loop_seen e m = ground arith

  loop_new :
      (item == dependent_id) ≡ false
      → member item seen ≡ false
      → search_loop edges dependent_id (suc fuel) (item ∷ pending) seen
        ≡ search_loop edges dependent_id fuel (children item edges ++ pending) (item ∷ seen)
  unfolding search_loop
  loop_new e m = ground arith

-- With more fuel than pending versions and unseen rows the loop returns.
search_loop_total :
    (edges : List Dependency) (dependent_id fuel : ℕ) (pending seen : List ℕ)
    → length pending + unseen seen edges < fuel
    → (b : Bool) × (search_loop edges dependent_id fuel pending seen ≡ some b)
unfolding search_loop
search_loop_total edges dependent_id zero pending seen h = absurd (omega arith)
search_loop_total edges dependent_id (suc fuel) [] seen h = (false, refl)
search_loop_total edges dependent_id (suc fuel) (item ∷ pending) seen h =
    elim (Bool-cases (item == dependent_id)) [
      | inl e ↦ (true, loop_found edges dependent_id fuel item pending seen e)
      | inr e ↦ elim (Bool-cases (member item seen)) [
        | inl m ↦
            rw (loop_seen edges dependent_id fuel item pending seen e m)
              (search_loop_total edges dependent_id fuel pending seen (omega arith))
        | inr m ↦ rw (loop_new edges dependent_id fuel item pending seen e m) (
            search_loop_total edges dependent_id fuel (children item edges ++ pending) (item ∷ seen)
              (omega (
                arith,
                length-append (children item edges) pending,
                unseen-cons item seen edges m,
              )))
      ]
    ]

-- A search that finds the dependent version has found a path to it from a pending one.
search_loop_sound :
    (edges : List Dependency) (start dependent_id fuel : ℕ) (pending seen : List ℕ)
    → ((x : ℕ) → In x pending → Reaches edges start x)
    → search_loop edges dependent_id fuel pending seen ≡ some true
    → Reaches edges start dependent_id
unfolding search_loop
search_loop_sound edges start d zero pending seen h e = cc
search_loop_sound edges start d (suc fuel) [] seen h e = cc
search_loop_sound edges start d (suc fuel) (item ∷ pending) seen h e =
    elim (Bool-cases (item == d)) [
      | inl q ↦ let same : item ≡ d = ground arith in rw (← same) (h item (inl refl))
      | inr q ↦ elim (Bool-cases (member item seen)) [
        | inl m ↦
            search_loop_sound edges start d fuel pending seen (λ x n. h x (inr n))
              (rw (loop_seen edges d fuel item pending seen q m) at e)
        | inr m ↦
            search_loop_sound edges start d fuel (children item edges ++ pending) (item ∷ seen)
              (λ x n. elim ((In-append (children item edges) pending x).0 n) [
                | inl child ↦ step (h item (inl refl)) child
                | inr later ↦ h x (inr later)
              ])
              (rw (loop_new edges d fuel item pending seen q m) at e)
      ]
    ]

-- Every prerequisite of a seen version is seen or pending, and the dependent version is not seen.
abbrev IsClosed : List Dependency → ℕ → List ℕ → List ℕ → Type 0
IsClosed edges d pending seen =
    ((x c : ℕ) → In x seen → In c (children x edges) → In c seen ⊎ In c pending)
    × ((x : ℕ) → In x seen → x ≢ d)

In-member : (x : ℕ) (xs : List ℕ) → member x xs ≡ true → In x xs
In-member x xs h =
    let (y, m, e) = exists_row-In (λ (y : ℕ). y == x) xs h in
    let same : y ≡ x = ground arith in rw (← same) m

-- A search that ends without finding the version has seen a closed set without it, which holds all
-- that was seen or pending.
search_loop_complete :
    (edges : List Dependency) (d fuel : ℕ) (pending seen : List ℕ)
    → IsClosed edges d pending seen
    → search_loop edges d fuel pending seen ≡ some false
    → (final : List ℕ) × IsClosed edges d [] final
      × ((x : ℕ) → In x seen ⊎ In x pending → In x final)
unfolding search_loop
search_loop_complete edges d zero pending seen h e = cc
search_loop_complete edges d (suc fuel) [] seen h e =
    (seen, h, λ x m. elim m [ inl q ↦ q | inr q ↦ absurd q ])
search_loop_complete edges d (suc fuel) (item ∷ pending) seen h e = elim (Bool-cases (item == d)) [
  | inl q ↦ absurd (ground (arith, loop_found edges d fuel item pending seen q))
  | inr q ↦ elim (Bool-cases (member item seen)) [
    | inl m ↦
        let old = In-member item seen m in
        let (final, closed, all) =
          search_loop_complete edges d fuel pending seen
            (
              λ x c mx mc. elim (h.0 x c mx mc) [
                | inl s ↦ inl s
                | inr p ↦ elim p [ inl same ↦ inl (rw same old) | inr r ↦ inr r ]
              ],
              h.1,
            )
            (rw (loop_seen edges d fuel item pending seen q m) at e) in
        (
          final,
          closed,
          λ x mx. elim mx [
            | inl s ↦ all x (inl s)
            | inr p ↦ elim p [ inl same ↦ rw same (all item (inl old)) | inr r ↦ all x (inr r) ]
          ],
        )
    | inr m ↦
        let (final, closed, all) =
          search_loop_complete edges d fuel (children item edges ++ pending) (item ∷ seen)
            (
              λ x c mx mc. elim mx [
                | inl same ↦
                    inr ((In-append (children item edges) pending c).1 (inl (rw same at mc)))
                | inr s ↦ elim (h.0 x c s mc) [
                  | inl t ↦ inl (inr t)
                  | inr p ↦ elim p [
                    | inl same ↦ inl (inl same)
                    | inr r ↦ inr ((In-append (children item edges) pending c).1 (inr r))
                  ]
                ]
              ],
              λ x mx. elim mx [ inl same ↦ (λ eq. ground arith) | inr s ↦ h.1 x s ],
            )
            (rw (loop_new edges d fuel item pending seen q m) at e) in
        (
          final,
          closed,
          λ x mx. elim mx [
            | inl s ↦ all x (inl (inr s))
            | inr p ↦ elim p [
              | inl same ↦ all x (inl (inl same))
              | inr r ↦ all x (inr ((In-append (children item edges) pending x).1 (inr r)))
            ]
          ],
        )
  ]
]

-- A closed set that holds the start holds all that it reaches.
closed-Reaches :
    (edges : List Dependency) (d start : ℕ) (final : List ℕ) {x : ℕ}
    → IsClosed edges d [] final
    → In start final
    → Reaches edges start x
    → In x final
closed-Reaches edges d start final h m here = m
closed-Reaches edges d start final {x} h m (step {b = b} r child) =
    elim (h.0 b x (closed-Reaches edges d start final h m r) child) [ inl s ↦ s | inr p ↦ absurd p ]

-- The search always ends within its fuel, and answers whether the new prerequisite reaches the
-- dependent version through the rows other than the excluded one.
pub would_create_cycle_lem :
    (rows : List Dependency) (dependent_id prerequisite_id : ℕ) (exclude_pk : Option ℕ)
    → (b : Bool) × (would_create_cycle rows dependent_id prerequisite_id exclude_pk ≡ some b)
      × ((b ≡ true) ↔ Reaches (without exclude_pk rows) prerequisite_id dependent_id)
unfolding would_create_cycle
would_create_cycle_lem rows d p exclude_pk =
    let edges = without exclude_pk rows in
    let fuel = length edges + 2 in
    let (b, e) = search_loop_total edges d fuel (p ∷ []) [] (omega (arith, unseen-le [] edges)) in
    (
      b,
      e,
      (
        λ q.
            search_loop_sound edges p d fuel (p ∷ []) []
              (λ x m. elim m [ inl same ↦ rw same here | inr r ↦ absurd r ]) (e ∙ ap some q),
        λ r. elim (Bool-cases b) [
          | inl q ↦ q
          | inr q ↦
              let (final, closed, all) =
                search_loop_complete edges d fuel (p ∷ []) []
                  ((λ x c m _. absurd m), (λ x m. absurd m)) (e ∙ ap some q) in
              let found = closed-Reaches edges d p final closed (all p (inr (inl refl))) r in
              absurd (closed.1 d found refl)
        ],
      ),
    )
