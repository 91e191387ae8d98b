-- ===== src/Dependencies/Closure/Order.antt =====
-- The execution order puts every version after its prerequisites.
use rpsd_config.Common.{
  ℕ, zero, suc, String, ◌≡◌, refl, sym, ◌∙◌, ap, Bool, true, List, [], ◌∷◌, ◌++◌, Result, ok,
  Result-cases, In, In-append, exists_row, exists_row-In, select, select-In, In-select, sort_by-In,
  put_row, put_row-In, ◌==◌, ==_iff, str_eq, eq_iff, arith, Bool-cases, inl, inr, ◌⊎◌,
}
use mathlib.Core.List.{append_assoc}
use mathlib.Core.Path.{subst}
use rpsd_config.Json.Canonical.{text_lt}
use rpsd_config.Models.{IndicatorVersion}
use rpsd_config.Dependencies.Graph.{member}
use rpsd_config.Dependencies.Catalogue.{Link, Catalogue, ClosureError, links_of}
use rpsd_config.Dependencies.Closure.Steps.{links_step, arrive-eq-ok, visit_step, resolve_step}
use rpsd_config.Dependencies.Closure.{
  State, empty_state, finish, IndicatorClosure, visit_links, visit, visit_roots, roots_of, enough,
  resolve_indicator_closure, add_edge,
}

-- What the tables keep: prerequisites are rows, and codes are unique.
pub record IsCatalogue (cat : Catalogue) : Type 0 where
  pub linked : (l : Link) → In l cat.links → In l.prerequisite cat.versions
  pub unique :
      (a b : IndicatorVersion)
      → In a cat.versions
      → In b cat.versions
      → a.code ≡ b.code
      → a.pk ≡ b.pk

-- In `order` the version stands after all of its prerequisites.
unfoldable pub Follows : Catalogue → IndicatorVersion → List String → Type 0
Follows cat w order =
    (before : List String) × (after : List String) × (order ≡ before ++ w.code ∷ after)
    × ((l : Link) → In l cat.links → l.dependent_id ≡ w.pk → In l.prerequisite.code before)

abbrev IsOrder : Catalogue → List String → Type 0
IsOrder cat order =
    (c : String)
    → In c order
    → (w : IndicatorVersion) × In w cat.versions × (w.code ≡ c) × Follows cat w order

abbrev Extends : List String → List String → Type 0
Extends order order' = (more : List String) × (order' ≡ order ++ more)

Extends-trans : (a b c : List String) → Extends a b → Extends b c → Extends a c
Extends-trans a b c (m, e) (n, f) = (m ++ n, f ∙ (ap (λ x. x ++ n) e ∙ append_assoc a m n))

Extends-In : (a b : List String) (c : String) → Extends a b → In c a → In c b
Extends-In a b c (m, e) h = rw e ((In-append a m c).1 (inl h))

Follows-Extends :
    (cat : Catalogue) (w : IndicatorVersion) (a b : List String)
    → Extends a b
    → Follows cat w a
    → Follows cat w b
unfolding Follows
Follows-Extends cat w a b (m, e) (before, after, f, h) =
    (before, after ++ m, e ∙ (ap (λ x. x ++ m) f ∙ append_assoc before (w.code ∷ after) m), h)

-- Only the code and the key of the version matter.
Follows-same :
    (cat : Catalogue) (v w : IndicatorVersion) (order : List String)
    → v.code ≡ w.code
    → v.pk ≡ w.pk
    → Follows cat v order
    → Follows cat w order
unfolding Follows
Follows-same cat v w order code pk (before, after, e, h) = (
  before,
  after,
  e ∙ ap (λ (c : String). before ++ c ∷ after) code,
  λ l m own. h l m (own ∙ sym pk),
)

-- What a visit does to the order and to the versions.
abbrev Grows : Catalogue → State → State → Type 0
Grows cat st st' =
    Extends st.execution_order st'.execution_order
    × (IsOrder cat st.execution_order → IsOrder cat st'.execution_order)
    × ((w : IndicatorVersion)
        → In w st'.versions
        → In w st.versions ⊎ (In w.code st'.execution_order × In w cat.versions))

append-nil' : (a : List String) → a ≡ a ++ []
append-nil' [] = refl
append-nil' (x ∷ a) = ap (λ y. x ∷ y) (append-nil' a)

Grows-refl : (cat : Catalogue) (st : State) → Grows cat st st
Grows-refl cat st = (([], append-nil' st.execution_order), λ o. o, λ w m. inl m)

Grows-trans : (cat : Catalogue) (a b c : State) → Grows cat a b → Grows cat b c → Grows cat a c
Grows-trans cat a b c (e, o, v) (e', o', v') = (
  Extends-trans a.execution_order b.execution_order c.execution_order e e',
  λ h. o' (o h),
  λ w m. elim (v' w m) [
    | inl r ↦ elim (v w r) [
      | inl q ↦ inl q
      | inr (q, k) ↦ inr (Extends-In b.execution_order c.execution_order w.code e' q, k)
    ]
    | inr r ↦ inr r
  ],
)

-- What a visit of a version ensures.
abbrev Visits : Catalogue → IndicatorVersion → State → State → Type 0
Visits cat version st st' = Grows cat st st' × In version.code st'.execution_order

visit_links-Grows :
    (cat : Catalogue) (allow_drafts : Bool)
    (go : IndicatorVersion → State → Result ClosureError State) (links : List Link) (st : State)
    {st' : State}
    → ((l : Link) (s s' : State)
        → In l links
        → go l.prerequisite s ≡ ok s'
        → Visits cat l.prerequisite s s')
    → visit_links allow_drafts go links st ≡ ok st'
    → Grows cat st st' × ((l : Link) → In l links → In l.prerequisite.code st'.execution_order)
unfolding visit_links
visit_links-Grows cat allow_drafts go [] st {st'} h e =
    let same : st ≡ st' = ground (arith, e) in
    (subst (λ (s : State). Grows cat st s) same (Grows-refl cat st), λ l m. absurd m)
visit_links-Grows cat allow_drafts go (l ∷ links) st {st'} h e =
    let (s, e2, e3) = links_step allow_drafts go l links st e in
    let (g, c) = h l (add_edge l st) s (inl refl) e2 in
    let (g', c') = visit_links-Grows cat allow_drafts go links s (λ k a b m. h k a b (inr m)) e3 in
    (
      Grows-trans cat st s st' g g',
      λ k m. elim m [
        | inl same ↦
            subst (λ (x : Link). In x.prerequisite.code st'.execution_order) (sym same)
              (Extends-In s.execution_order st'.execution_order l.prerequisite.code g'.0 c)
        | inr r ↦ c' k r
      ],
    )

abbrev Finished : Catalogue → IndicatorVersion → List String → List String → Type 0
Finished cat version order order' =
    Extends order order' × (IsOrder cat order → IsOrder cat order') × In version.code order'

append-Finished :
    (cat : Catalogue) (version : IndicatorVersion) (order : List String)
    → In version cat.versions
    → ((l : Link) → In l cat.links → l.dependent_id ≡ version.pk → In l.prerequisite.code order)
    → Finished cat version order (order ++ version.code ∷ [])
unfolding Follows
append-Finished cat version order present done =
    let grown : Extends order (order ++ version.code ∷ []) = (version.code ∷ [], refl) in
    (
      grown,
      λ o c m. elim ((In-append order (version.code ∷ []) c).0 m) [
        | inl old ↦
            let (w, p, e, f) = o c old in
            (w, p, e, Follows-Extends cat w order (order ++ version.code ∷ []) grown f)
        | inr new ↦ elim new [
          | inl e ↦ (version, present, sym e, (order, [], refl, done))
          | inr r ↦ absurd r
        ]
      ],
      (In-append order (version.code ∷ []) version.code).1 (inr (inl refl)),
    )

-- The end of a visit, all of whose prerequisites are in the order.
finish-Finished :
    (cat : Catalogue) (version : IndicatorVersion) (st : State)
    → In version cat.versions
    → ((l : Link)
        → In l cat.links
        → l.dependent_id ≡ version.pk
        → In l.prerequisite.code st.execution_order)
    → Finished cat version st.execution_order (finish version st).execution_order
unfolding finish
finish-Finished cat version st present done =
    let order = st.execution_order in
    elim (Bool-cases (exists_row (λ c. str_eq c version.code) order)) [
      | inl old ↦
          let (c, m, e) = exists_row-In (λ c. str_eq c version.code) order old in
          let known : In version.code order =
            subst (λ (x : String). In x order) ((eq_iff c version.code).0 e) m in
          rw old (([], append-nil' order), λ o. o, known)
      | inr new ↦ rw new (append-Finished cat version order present done)
    ]

-- A visit is its three parts.
join :
    (cat : Catalogue) (version : IndicatorVersion) (st s1 s2 : State)
    → In version cat.versions
    → s1.execution_order ≡ st.execution_order
    → s1.versions ≡ put_row (λ v. v.pk == version.pk) version st.versions
    → Grows cat s1 s2
    → Finished cat version s2.execution_order (finish version s2).execution_order
    → Visits cat version st (finish version s2)
unfolding finish
join cat version st s1 s2 present same put (extended, ordered, covered)
      (extended', ordered', last) =
    let through =
      Extends-trans s1.execution_order s2.execution_order (finish version s2).execution_order
        extended extended' in
    (
      (
        subst (λ (o : List String). Extends o (finish version s2).execution_order) same through,
        λ o. ordered' (ordered (subst (IsOrder cat) (sym same) o)),
        λ w m. elim (covered w m) [
          | inr (q, k) ↦ inr (
            Extends-In s2.execution_order (finish version s2).execution_order w.code extended' q,
            k,
          )
          | inl q ↦
              elim (put_row-In (λ v. v.pk == version.pk) version st.versions w
                (subst (λ (r : List IndicatorVersion). In w r) put q)) [
                  | inr old ↦ inl old
                  | inl new ↦ inr (
                      subst
                        (λ (v : IndicatorVersion).
                          In v.code (finish version s2).execution_order × In v cat.versions)
                        (sym new) (last, present))
                ]
        ],
      ),
      last,
    )

module _ (cat : Catalogue) (rows : IsCatalogue cat) where
  visit-Visits :
      (allow_drafts : Bool) (fuel : ℕ) (active : List ℕ) (path : List String)
      (version : IndicatorVersion) (st : State) {st' : State}
      → In version cat.versions
      → visit cat allow_drafts fuel active path version st ≡ ok st'
      → Visits cat version st st'
  unfolding visit
  visit-Visits allow_drafts zero active path version st present e = cc
  visit-Visits allow_drafts (suc fuel) active path version st {st'} present e =
      let (s1, s2, arrived, looped, ended) =
        visit_step cat allow_drafts fuel active path version st e in
      let (same, put) = arrive-eq-ok cat allow_drafts active path version st arrived in
      let (grown, covered) =
        visit_links-Grows cat allow_drafts _ (links_of cat version.pk) s1
          (λ l s s' m q.
            visit-Visits allow_drafts fuel (version.pk ∷ active) (path ++ l.prerequisite.code ∷ [])
              l.prerequisite s (rows.linked l (In-select _ cat.links l ((sort_by-In _ _ l).0 m)).0)
              q)
          looped in
      let fin = finish-Finished cat version s2 present (λ l m own. covered l (
        (sort_by-In _ _ l).1
          (select-In _ cat.links l m ((==_iff l.dependent_id version.pk).1 own)))) in
      subst (Visits cat version st) (sym ended)
        (join cat version st s1 s2 present same put grown fin)

  visit_roots-Grows :
      (allow_drafts : Bool) (fuel : ℕ) (roots : List IndicatorVersion) (st : State) {st' : State}
      → ((v : IndicatorVersion) → In v roots → In v cat.versions)
      → visit_roots cat allow_drafts fuel roots st ≡ ok st'
      → Grows cat st st' × ((v : IndicatorVersion) → In v roots → In v.code st'.execution_order)
  unfolding visit_roots
  visit_roots-Grows allow_drafts fuel [] st {st'} present e =
      let same : st ≡ st' = ground (arith, e) in
      (subst (λ (s : State). Grows cat st s) same (Grows-refl cat st), λ v m. absurd m)
  visit_roots-Grows allow_drafts fuel (root ∷ roots) st {st'} present e =
      elim (Result-cases (visit cat allow_drafts fuel [] (root.code ∷ []) root st)) [
        | inr (x, h) ↦ absurd (let e' = rw h at e in cc)
        | inl (s, h) ↦
            let e' = rw h at e in
            let (g, c) =
              visit-Visits allow_drafts fuel [] (root.code ∷ []) root st (present root (inl refl))
                h in
            let (g', c') =
              visit_roots-Grows allow_drafts fuel roots s (λ v m. present v (inr m)) e' in
            (
              Grows-trans cat st s st' g g',
              λ v m. elim m [
                | inl same ↦
                    subst (λ (x : IndicatorVersion). In x.code st'.execution_order) (sym same)
                      (Extends-In s.execution_order st'.execution_order root.code g'.0 c)
                | inr r ↦ c' v r
              ],
            )
      ]

-- What the execution order is for: it has the code of every root and of every version of the closure,
-- and every version in it follows all of its prerequisites.
pub record IsExecutable (cat : Catalogue) (root_ids : List ℕ) (c : IndicatorClosure) : Type 0 where
  pub rooted :
      (v : IndicatorVersion)
      → In v cat.versions
      → member v.pk root_ids ≡ true
      → In v.code c.execution_order
  pub present :
      (v : IndicatorVersion) → In v c.versions → In v cat.versions × In v.code c.execution_order
  pub ordered :
      (v : IndicatorVersion)
      → In v cat.versions
      → In v.code c.execution_order
      → Follows cat v c.execution_order

-- A closure that is returned is executable, whatever its roots are: its order has the code of every
-- root and of every version of the closure, and each version in it stands after all of its
-- prerequisites. Codes are unique, and prerequisites are rows of the catalogue.
pub resolve_closure-IsExecutable :
    (cat : Catalogue) (root_ids : List ℕ) (allow_drafts : Bool) (c : IndicatorClosure)
    → IsCatalogue cat
    → resolve_indicator_closure cat root_ids allow_drafts ≡ ok c
    → IsExecutable cat root_ids c
resolve_closure-IsExecutable cat root_ids allow_drafts c rows e =
    let (st, visited, same, put, _) = resolve_step cat root_ids allow_drafts e in
    let chosen = select (λ (v : IndicatorVersion). member v.pk root_ids) cat.versions in
    let by_code = λ (a b : IndicatorVersion). cat.precedes a.code b.code in
    let ((extended, ordered, covered), rooted) =
      visit_roots-Grows cat rows allow_drafts (enough cat) (roots_of cat root_ids) empty_state
        (λ v m.
          (In-select (λ x. member x.pk root_ids) cat.versions v
            ((sort_by-In by_code chosen v).0 m)).0)
        visited in
    let order : IsOrder cat st.execution_order = ordered (λ c m. absurd m) in
    record {
      rooted = λ v m r. subst (In v.code) (sym same) (
          rooted v (
            (sort_by-In by_code chosen v).1
              (select-In (λ x. member x.pk root_ids) cat.versions v m r)));
      present = λ v m.
          elim (covered v (
            (sort_by-In (λ a b. text_lt a.code b.code) st.versions v).0
              (subst (λ (r : List IndicatorVersion). In v r) put m))) [
                | inl q ↦ absurd q
                | inr (q, k) ↦ (k, subst (In v.code) (sym same) q)
              ];
      ordered = λ v k m.
          let (w, p, f, h) = order v.code (subst (In v.code) same m) in
          subst (Follows cat v) (sym same)
            (Follows-same cat w v st.execution_order f (rows.unique w v p k f) h);
    }
