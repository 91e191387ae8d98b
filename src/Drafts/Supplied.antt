-- ===== src/Drafts/Supplied.antt =====
-- A resolution without issues supplies every specification that the chosen indicators need.
use rpsd_config.Common.{
  ◌≡◌, refl, sym, ◌∙◌, ap, false, List, [], ◌∷◌, ◌++◌, ok, Result-cases, In, exists_row-In,
  put_row-In, put_row-new, In-put_row, sort_by-In, ◌==◌, ==_iff, arith, Bool-cases, inl, inr, ◌⊎◌,
}
use mathlib.Core.Path.{subst}
use rpsd_config.Models.{DatasetSpecification, ProfileInput, ProfileIndicator, Profile}
use rpsd_config.Dependencies.Catalogue.{Catalogue}
use rpsd_config.Dependencies.Closure.{IndicatorClosure, resolve_indicator_closure}
use rpsd_config.Drafts.Inputs.{
  serves, Required, require_inputs, choose_inputs, has_input, put_input, requested_of,
  foreign_issues, update_inputs, profile_inputs, input_precedes, input_before,
  RevisionInputResolution, resolution, resolve_revision_inputs,
}
use rpsd_config.Drafts.Needed.{nil-of-append, IsRequired, require_inputs-Keeps, choose_inputs_lem}

-- Rows of a table: the key of a row determines it.
abbrev pub AreRows : List ProfileInput → List ProfileInput → Type 0
AreRows xs ys = (i j : ProfileInput) → In i xs → In j ys → i.pk ≡ j.pk → i ≡ j

-- A dictionary by key keeps its keys and has nothing else.
update-Keeps :
    (xs chosen : List ProfileInput) (i : ProfileInput)
    → In i xs ⊎ In i chosen
    → (j : ProfileInput) × In j (update_inputs xs chosen) × (j.pk ≡ i.pk)
unfolding update_inputs
update-Keeps [] chosen i h = elim h [ inl m ↦ absurd m | inr m ↦ (i, m, refl) ]
update-Keeps (x ∷ xs) chosen i h =
    let new = put_row-new (λ j. j.pk == x.pk) x chosen in
    elim h [
      | inl m ↦ elim m [
        | inl same ↦
            let (j, q, e) = update-Keeps xs (put_input x chosen) x (inr new) in
            (j, q, e ∙ sym (ap (λ (y : ProfileInput). y.pk) same))
        | inr old ↦ update-Keeps xs (put_input x chosen) i (inl old)
      ]
      | inr m ↦ elim (Bool-cases (i.pk == x.pk)) [
        | inl hit ↦
            let (j, q, e) = update-Keeps xs (put_input x chosen) x (inr new) in
            (j, q, e ∙ sym ((==_iff i.pk x.pk).0 hit))
        | inr miss ↦
            update-Keeps xs (put_input x chosen) i
              (inr (In-put_row (λ j. j.pk == x.pk) x chosen i m miss))
      ]
    ]

update-In :
    (xs chosen : List ProfileInput) (i : ProfileInput)
    → In i (update_inputs xs chosen)
    → In i xs ⊎ In i chosen
unfolding update_inputs
update-In [] chosen i m = inr m
update-In (x ∷ xs) chosen i m = elim (update-In xs (put_input x chosen) i m) [
  | inl q ↦ inl (inr q)
  | inr q ↦ elim (put_row-In (λ j. j.pk == x.pk) x chosen i q) [
    | inl e ↦ inl (inl e)
    | inr r ↦ inr r
  ]
]

-- The requested inputs that are taken are rows of the profile.
requested-In :
    (inputs requested chosen : List ProfileInput) (i : ProfileInput)
    → AreRows requested inputs
    → In i (requested_of inputs requested chosen)
    → In i inputs ⊎ In i chosen
unfolding requested_of
requested-In inputs [] chosen i rows m = inr m
requested-In inputs (x ∷ requested) chosen i rows m = elim (Bool-cases (has_input x.pk inputs)) [
  | inr absent ↦
      requested-In inputs requested chosen i (λ a b ma. rows a b (inr ma)) (rw absent at m)
  | inl here ↦
      elim (requested-In inputs requested (put_input x chosen) i (λ a b ma. rows a b (inr ma))
        (rw here at m)) [
          | inl q ↦ inl q
          | inr q ↦ elim (put_row-In (λ j. j.pk == x.pk) x chosen i q) [
            | inl e ↦
                let (y, my, hit) = exists_row-In (λ j. j.pk == x.pk) inputs here in
                let same : x ≡ y = rows x y (inl refl) my (sym ((==_iff y.pk x.pk).0 hit)) in
                inl (subst (λ (z : ProfileInput). In z inputs) (sym (e ∙ same)) my)
            | inr r ↦ inr r
          ]
        ]
]

-- What the selection of a resolution is for.
pub record IsSupplied (cat : Catalogue) (profile : Profile) (links : List ProfileIndicator)
    (selected : List ProfileInput) : Type 0 where
  pub part : (i : ProfileInput) → In i selected → In i profile.input_flow_links
  pub supplied :
      (link : ProfileIndicator)
      → In link links
      → (c : IndicatorClosure) × (resolve_indicator_closure cat
            (link.indicator_version.pk ∷ [])
            false
          ≡ ok c)
        × ((s : DatasetSpecification)
            → In s c.specifications
            → (i : ProfileInput) × In i selected × (serves i ≡ s.pk))

issues_of :
    (cat : Catalogue) (profile : Profile) (requested : List ProfileInput) (required : Required)
    → required.issues
        ++ ((choose_inputs (profile_inputs cat profile) required.specification_ids).issues
            ++ foreign_issues (profile_inputs cat profile) requested)
      ≡ (resolution (profile_inputs cat profile) requested required).issues
unfolding resolution
issues_of cat profile requested required = refl

resolution-IsSupplied :
    (cat : Catalogue) (profile : Profile) (links : List ProfileIndicator)
    (requested : List ProfileInput) (required : Required)
    → AreRows requested profile.input_flow_links
    → AreRows profile.input_flow_links profile.input_flow_links
    → (resolution (profile_inputs cat profile) requested required).issues ≡ []
    → ((link : ProfileIndicator) → In link links → IsRequired cat link required.specification_ids)
    → IsSupplied cat profile links
        (resolution (profile_inputs cat profile) requested required).selected_inputs
unfolding resolution
resolution-IsSupplied cat profile links requested required rows own quiet all =
    let inputs = profile_inputs cat profile in
    let m = choose_inputs inputs required.specification_ids in
    let wanted = requested_of inputs requested [] in
    let first = update_inputs m.inputs [] in
    let total = update_inputs wanted first in
    let row_of =
      λ (i : ProfileInput). sort_by-In (input_precedes cat.precedes) profile.input_flow_links i in
    let sorted = λ (i : ProfileInput). sort_by-In input_before total i in
    let (serves_all, chosen) =
      choose_inputs_lem inputs required.specification_ids
        (nil-of-append m.issues (foreign_issues inputs requested)
          (nil-of-append required.issues _ quiet).1).0 in
    let part = λ (i : ProfileInput) (q : In i total).
      (row_of i).0 (elim (update-In wanted first i q) [
        | inl w ↦
            elim (requested-In inputs requested [] i (λ a b ma mb. rows a b ma ((row_of b).0 mb))
              w) [ inl r ↦ r | inr r ↦ absurd r ]
        | inr f ↦ elim (update-In m.inputs [] i f) [ inl r ↦ chosen i r | inr r ↦ absurd r ]
      ]) in
    record {
      part = λ i q. part i ((sorted i).0 q);
      supplied = λ link ml.
          let (c, found, needs) = all link ml in
          (
            c,
            found,
            λ s ms.
                let (i, mi, e) = serves_all s.pk (needs s ms) in
                let (j, mj, k) = update-Keeps m.inputs [] i (inl mi) in
                let (t, mt, n) = update-Keeps wanted first j (inr mj) in
                let same : t ≡ i = own t i (part t mt) ((row_of i).0 (chosen i mi)) (n ∙ k) in
                (t, (sorted t).1 mt, ap serves same ∙ e),
          );
    }

-- A resolution without issues selects inputs of the profile only, and for every chosen indicator an
-- input for each specification of its closure, which exists. Keys are unique among the inputs of the
-- profile, and requested inputs are rows.
pub resolve_inputs-IsSupplied :
    (cat : Catalogue) (profile : Profile) (links : List ProfileIndicator)
    (requested : List ProfileInput) (r : RevisionInputResolution)
    → AreRows requested profile.input_flow_links
    → AreRows profile.input_flow_links profile.input_flow_links
    → resolve_revision_inputs cat profile links requested ≡ ok r
    → r.issues ≡ []
    → IsSupplied cat profile links r.selected_inputs
unfolding resolve_revision_inputs
resolve_inputs-IsSupplied cat profile links requested r rows own e quiet =
    let start : Required = record { specification_ids = []; issues = [] } in
    elim (Result-cases (require_inputs cat profile links [] start)) [
      | inr (x, h) ↦ absurd (let e' = rw h at e in cc)
      | inl (required, h) ↦
          let same : resolution (profile_inputs cat profile) requested required ≡ r =
            ground (arith, e, h) in
          let clear = ap (λ (q : RevisionInputResolution). q.issues) same ∙ quiet in
          subst (λ (q : RevisionInputResolution). IsSupplied cat profile links q.selected_inputs)
            same
            (resolution-IsSupplied cat profile links requested required rows own clear
              (require_inputs-Keeps cat profile links [] start h
                (nil-of-append required.issues _
                  (issues_of cat profile requested required ∙ clear)).0).2)
    ]
