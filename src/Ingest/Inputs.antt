-- ===== src/Ingest/Inputs.antt =====
-- The input that serves a data category.
use rpsd_config.Common.{
  ℕ, String, ◌≡◌, refl, sym, ◌∙◌, ap, Bool, true, Option, none, some, List, [], ◌∷◌, ok, In, select,
  In-select, select-In, arith, Result-cases, inl, inr,
}
use rpsd_config.Json.{Json, arr, Items}
use rpsd_config.Json.Access.{get}
use rpsd_config.Texts.{strip, lower}
use rpsd_config.Models.{Contract, Revision}
use rpsd_config.Ingest.{
  require_mapping, Checks, CurrentContractConfiguration, resolve_current_contract_configuration,
  entries, require_inputs, only_match, serves, CurrentIngestConfiguration, matching_input, parts_of,
  select_input, resolve_current_ingest_configuration,
}
use rpsd_config.Ingest.Resolved.{require_mapping-eq-ok}

-- The input is the only one of the snapshot that serves the category.
pub record IsOnlyInput (category : String) (snapshot input : Json) : Type 0 where
  pub xs : Items
  pub items : List Json
  pub inputs : get "inputs" snapshot ≡ some (arr xs)
  pub read : entries xs ≡ ok items
  pub member : In input items
  pub fits : serves category input ≡ true
  pub only : (other : Json) → In other items → serves category other ≡ true → other ≡ input

require_inputs-eq-ok : (o : Option Json) (xs : Items) → require_inputs o ≡ ok xs → o ≡ some (arr xs)
require_inputs-eq-ok (some (arr ys)) xs h = ap (λ (zs : Items). some (arr zs)) (ground arith)
require_inputs-eq-ok none xs h = absurd (ground arith)
require_inputs-eq-ok (some _) xs h = absurd (ground arith)

only_match-eq-ok : (xs : List Json) (x : Json) → only_match xs ≡ ok x → xs ≡ x ∷ []
only_match-eq-ok [] x h = absurd (ground arith)
only_match-eq-ok (y ∷ []) x h = ap (λ (z : Json). z ∷ []) (ground arith)
only_match-eq-ok (y ∷ (z ∷ zs)) x h = absurd (ground arith)

the_match :
    (p : Json → Bool) (items : List Json) (x : Json)
    → only_match (select p items) ≡ ok x
    → In x items × (p x ≡ true) × ((y : Json) → In y items → p y ≡ true → y ≡ x)
the_match p items x h =
    let alone : select p items ≡ x ∷ [] = only_match-eq-ok (select p items) x h in
    let found : In x (select p items) = rw alone (inl refl) in
    let (m, fits) = In-select p items x found in
    (
      m,
      fits,
      λ y my q.
          let there = rw alone at (select-In p items y my q) in
          elim there [ inl e ↦ e | inr r ↦ absurd r ],
    )

matching_input-IsOnlyInput :
    (category : String) (snapshot input : Json)
    → matching_input category snapshot ≡ ok input
    → IsOnlyInput category snapshot input
unfolding matching_input
matching_input-IsOnlyInput category snapshot input h =
    elim (Result-cases (require_inputs (get "inputs" snapshot))) [
      | inr (x, e) ↦ absurd (ground (arith, e))
      | inl (xs, e) ↦ elim (Result-cases (entries xs)) [
        | inr (x, f) ↦ absurd (ground (arith, e, f))
        | inl (items, f) ↦
            let matched : only_match (select (serves category) items) ≡ ok input =
              ground (arith, e, f) in
            let (m, fits, only) = the_match (serves category) items input matched in
            record {
              xs = xs;
              items = items;
              inputs = require_inputs-eq-ok (get "inputs" snapshot) xs e;
              read = f;
              member = m;
              fits = fits;
              only = only;
            }
      ]
    ]

parts_of-eq-ok :
    (selected snapshot specification flow orchestration : Json)
    → parts_of selected snapshot ≡ ok (specification, flow, orchestration)
    → (get "dataset_specification" selected ≡ some specification)
      × (get "input_flow" selected ≡ some flow)
      × (get "orchestration_flow" snapshot ≡ some orchestration)
unfolding parts_of
parts_of-eq-ok selected snapshot specification flow orchestration h =
    elim (Result-cases (require_mapping (get "dataset_specification" selected))) [
      | inr (x, e) ↦ absurd (ground (arith, e))
      | inl (s, e) ↦ elim (Result-cases (require_mapping (get "input_flow" selected))) [
        | inr (x, f) ↦ absurd (ground (arith, e, f))
        | inl (t, f) ↦ elim (Result-cases (require_mapping (get "orchestration_flow" snapshot))) [
          | inr (x, g) ↦ absurd (ground (arith, e, f, g))
          | inl (u, g) ↦ (
            require_mapping-eq-ok _ specification (ground (arith, e, f, g)),
            require_mapping-eq-ok _ flow (ground (arith, e, f, g)),
            require_mapping-eq-ok _ orchestration (ground (arith, e, f, g)),
          )
        ]
      ]
    ]

-- What is returned for a category: the specification and the flow of the only input of the
-- snapshot that serves it, and the orchestration flow of the snapshot.
pub record IsServed (category : String) (c : CurrentIngestConfiguration) : Type 0 where
  pub input : Json
  pub is_only : IsOnlyInput category c.current.snapshot input
  pub specified : get "dataset_specification" input ≡ some c.dataset_specification
  pub flows : get "input_flow" input ≡ some c.input_flow_version
  pub orchestrated : get "orchestration_flow" c.current.snapshot ≡ some c.orchestration_flow_version

select_input-IsServed :
    (category : String) (current : CurrentContractConfiguration) (c : CurrentIngestConfiguration)
    → select_input category current ≡ ok c
    → (c.current ≡ current) × IsServed category c
unfolding select_input
select_input-IsServed category current c h =
    elim (Result-cases (matching_input category current.snapshot)) [
      | inr (x, e) ↦ absurd (ground (arith, e))
      | inl (input, e) ↦ elim (Result-cases (parts_of input current.snapshot)) [
        | inr (x, f) ↦ absurd (ground (arith, e, f))
        | inl ((specification, flow, orchestration), f) ↦
            let made : (record {
              current = current;
              data_category = category;
              dataset_specification = specification;
              input_flow_version = flow;
              orchestration_flow_version = orchestration;
            })
                ≡ c =
              ground (arith, e, f) in
            let (s, t, u) =
              parts_of-eq-ok input current.snapshot specification flow orchestration f in
            rw (← made) (
              refl,
              record {
                input = input;
                is_only = matching_input-IsOnlyInput category current.snapshot input e;
                specified = s;
                flows = t;
                orchestrated = u;
              },
            )
      ]
    ]

-- A configuration that is resolved for a category comes from the current configuration of the
-- contract, and its parts are those of the only input of the snapshot that serves the category.
pub resolve_ingest-IsServed :
    (checks : Checks) (allow_evaluations allow_formal : Bool) (today : ℕ) (rows : List Revision)
    (contract : Contract) (data_category : String) (c : CurrentIngestConfiguration)
    → resolve_current_ingest_configuration checks allow_evaluations allow_formal today rows contract
        data_category
      ≡ ok c
    → (resolve_current_contract_configuration checks allow_evaluations allow_formal today rows
          contract
        ≡ ok c.current)
      × IsServed (lower (strip data_category)) c
unfolding resolve_current_ingest_configuration
resolve_ingest-IsServed checks ae af today rows contract data_category c h =
    elim (Result-cases (resolve_current_contract_configuration checks ae af today rows contract)) [
      | inr (x, e) ↦ absurd (ground (arith, e))
      | inl (current, e) ↦
          let selected : select_input (lower (strip data_category)) current ≡ ok c =
            ground (arith, e) in
          let (same, served) =
            select_input-IsServed (lower (strip data_category)) current c selected in
          (e ∙ ap ok (sym same), served)
    ]
