-- ===== src/Drafts/Saved.antt =====
-- What saved configurations do to the rows of a draft.
use rpsd_config.Common.{
  ℕ, ◌≡◌, refl, sym, ◌∙◌, ap, List, [], ◌∷◌, ok, Result-cases, map, In, In-select, exists_row-In,
  put_row, put_row-In, put_row-new, In-put_row, Bool-cases, ◌==◌, ==_iff, arith, inl, inr, ◌⊎◌,
}
use mathlib.Core.Path.{subst}
use rpsd_config.Models.{Profile, ProfileIndicator, Configuration}
use rpsd_config.Dependencies.Graph.{member}
use rpsd_config.Drafts.Rows.{of_link, normalized, save_configuration}
use rpsd_config.Drafts.Create.{save_all}
use rpsd_config.Drafts.Replace.{link_of, kept}

pub normalized-link :
    (c : Configuration) {stored : Configuration}
    → normalized c ≡ ok stored
    → link_of stored ≡ link_of c
unfolding normalized
normalized-link c e = ground (arith, e)

-- What a saved configuration does to the rows: its link's row is new, the others stay.
pub save_step :
    (profile : Profile) (c : Configuration) (rows : List Configuration) {rows' : List Configuration}
    → save_configuration profile c rows ≡ ok rows'
    → (stored : Configuration) × (link_of stored ≡ link_of c)
      × (rows' ≡ put_row (of_link (link_of c)) stored rows)
unfolding save_configuration
save_step profile c rows {rows'} e = elim (Result-cases (normalized c)) [
  | inr (x, h) ↦ absurd (let e' = rw h at e in cc)
  | inl (stored, h) ↦ (stored, normalized-link c h, ground (arith, e, h))
]

abbrev pub keys_of : List Configuration → List ℕ
keys_of configs = map (λ (x : Configuration). (link_of x).pk) configs

-- The link of a saved row is that of a configuration that was saved, or the row was there before.
pub save_all-In :
    (profile : Profile) (configs rows : List Configuration) {rows' : List Configuration}
    (x : Configuration)
    → save_all profile configs rows ≡ ok rows'
    → In x rows'
    → ((c : Configuration) × In c configs × ((link_of x).pk ≡ (link_of c).pk)) ⊎ In x rows
unfolding save_all
save_all-In profile [] rows {rows'} x e m =
    let same : rows ≡ rows' = ground (arith, e) in
    inr (subst (λ (r : List Configuration). In x r) (sym same) m)
save_all-In profile (c ∷ configs) rows {rows'} x e m =
    elim (Result-cases (save_configuration profile c rows)) [
      | inr (y, h) ↦ absurd (let e' = rw h at e in cc)
      | inl (mid, h) ↦
          let e' : save_all profile configs mid ≡ ok rows' = rw h at e in
          let (stored, same, put) = save_step profile c rows h in
          elim (save_all-In profile configs mid x e' m) [
            | inl (d, md, l) ↦ inl (d, inr md, l)
            | inr q ↦
                elim (put_row-In (of_link (link_of c)) stored rows x
                  (subst (λ (r : List Configuration). In x r) put q)) [
                    | inl new ↦ inl (
                      c,
                      inl refl,
                      ap (λ (y : Configuration). (link_of y).pk) new
                          ∙ ap (λ (l : ProfileIndicator). l.pk) same,
                    )
                    | inr old ↦ inr old
                  ]
          ]
    ]

pub keys-In :
    (configs : List Configuration) (k : ℕ)
    → In k (keys_of configs)
    → (c : Configuration) × In c configs × (k ≡ (link_of c).pk)
keys-In [] k m = absurd m
keys-In (c ∷ configs) k m = elim m [
  | inl e ↦ (c, inl refl, e)
  | inr r ↦ let (d, q, h) = keys-In configs k r in (d, inr q, h)
]

-- Every configuration of the replaced composition has the link of a requested one.
pub saved-requested :
    (profile : Profile) (configs old : List Configuration) {rows : List Configuration}
    (x : Configuration)
    → save_all profile configs (kept configs old) ≡ ok rows
    → In x rows
    → (c : Configuration) × In c configs × ((link_of x).pk ≡ (link_of c).pk)
saved-requested profile configs old x e m =
    elim (save_all-In profile configs (kept configs old) x e m) [
      | inl q ↦ q
      | inr q ↦
          let (_, named) = In-select (λ c. member (link_of c).pk (keys_of configs)) old x q in
          let (k, mk, hit) = exists_row-In (λ y. y == (link_of x).pk) (keys_of configs) named in
          let (c, mc, h) = keys-In configs k mk in
          (c, mc, sym ((==_iff k (link_of x).pk).0 hit) ∙ h)
    ]

-- A row under a key is still there, or replaced, after another one was put.
put-key :
    (link : ProfileIndicator) (stored : Configuration) (rows : List Configuration) (k : ℕ)
    → link_of stored ≡ link
    → ((x : Configuration) × In x rows × ((link_of x).pk ≡ k))
    → (x : Configuration) × In x (put_row (of_link link) stored rows) × ((link_of x).pk ≡ k)
put-key link stored rows k same (x, m, e) = elim (Bool-cases (of_link link x)) [
  | inl hit ↦ (
    stored,
    put_row-new (of_link link) stored rows,
    ap (λ (l : ProfileIndicator). l.pk) same ∙ sym ((==_iff (link_of x).pk link.pk).0 hit) ∙ e,
  )
  | inr other ↦ (x, In-put_row (of_link link) stored rows x m other, e)
]

save_all-key :
    (profile : Profile) (configs rows : List Configuration) {rows' : List Configuration} (k : ℕ)
    → save_all profile configs rows ≡ ok rows'
    → ((x : Configuration) × In x rows × ((link_of x).pk ≡ k))
    → (x : Configuration) × In x rows' × ((link_of x).pk ≡ k)
unfolding save_all
save_all-key profile [] rows {rows'} k e (x, m, h) =
    let same : rows ≡ rows' = ground (arith, e) in
    (x, subst (λ (r : List Configuration). In x r) same m, h)
save_all-key profile (c ∷ configs) rows {rows'} k e there =
    elim (Result-cases (save_configuration profile c rows)) [
      | inr (y, h) ↦ absurd (let e' = rw h at e in cc)
      | inl (mid, h) ↦
          let e' : save_all profile configs mid ≡ ok rows' = rw h at e in
          let (stored, same, put) = save_step profile c rows h in
          let (x, m, q) = put-key (link_of c) stored rows k same there in
          save_all-key profile configs mid k e'
            (x, subst (λ (r : List Configuration). In x r) (sym put) m, q)
    ]

-- Every requested configuration is stored under its link.
pub requested-saved :
    (profile : Profile) (configs rows : List Configuration) {rows' : List Configuration}
    (c : Configuration)
    → save_all profile configs rows ≡ ok rows'
    → In c configs
    → (x : Configuration) × In x rows' × ((link_of x).pk ≡ (link_of c).pk)
unfolding save_all
requested-saved profile [] rows c e m = absurd m
requested-saved profile (d ∷ configs) rows {rows'} c e m =
    elim (Result-cases (save_configuration profile d rows)) [
      | inr (y, h) ↦ absurd (let e' = rw h at e in cc)
      | inl (mid, h) ↦
          let e' : save_all profile configs mid ≡ ok rows' = rw h at e in
          elim m [
            | inr q ↦ requested-saved profile configs mid c e' q
            | inl first ↦
                let (stored, same, put) = save_step profile d rows h in
                save_all-key profile configs mid (link_of c).pk e' (
                  stored,
                  subst (λ (r : List Configuration). In stored r) (sym put)
                      (put_row-new (of_link (link_of d)) stored rows),
                  ap (λ (l : ProfileIndicator). l.pk) (same ∙ ap link_of (sym first)),
                )
          ]
    ]
