-- ===== src/Store/TextIndex/Mirrored.antt =====
-- That the two FTS5 tables of sqlite_metadata.py mirror the table of the texts.
use ai_vfs.Base.{
  ◌≡◌, arith, refl, ap, sym, subst, Bool, true, false, not, ◌||◌, inl, inr, List, [], ◌∷◌, ◌++◌,
  Text, text_eq_sound, text_eq_refl, select, any, if◌then◌else◌, Bool-cases, and-eq-true,
}
use ai_vfs.Store.Tables.{TextArtifact, FtsRow}
use ai_vfs.Store.TextIndex.{same_text_key, upsert_artifact, replace_fts}

-- `(provider_key, params_hash, content_hash)`
abbrev pub Identity : Type 0
Identity = Text × (Text × Text)

abbrev pub same : Identity → Identity → Bool
same (k, (p, c)) (k', (p', c')) = same_text_key k p c k' p' c'

abbrev pub artifact_identity : TextArtifact → Identity
artifact_identity a = (a.provider_key, (a.params_hash, a.content_hash))

abbrev pub row_identity : FtsRow → Identity
row_identity r = (r.provider_key, (r.params_hash, r.content_hash))

same_sound : (q k : Identity) → same q k ≡ true → q ≡ k
unfolding same_text_key
same_sound (k, (p, c)) (k', (p', c')) h =
    let (hk, rest) = (and-eq-true _ _).0 h in
    let (hp, hc) = (and-eq-true _ _).0 rest in
    let ek : k' ≡ k = text_eq_sound k' k hk in
    let ep : p' ≡ p = text_eq_sound p' p hp in let ec : c' ≡ c = text_eq_sound c' c hc in cc

same_refl : (q : Identity) → same q q ≡ true
unfolding same_text_key
same_refl (k, (p, c)) = rw (text_eq_refl k, text_eq_refl p, text_eq_refl c) refl

same_sym : (q k : Identity) → same q k ≡ false → same k q ≡ false
same_sym q k h = elim (Bool-cases (same k q)) [
  | inl e ↦
      let eq : k ≡ q = same_sound k q e in
      let t : same q k ≡ true = subst (λ u. same q u ≡ true) (sym eq) (same_refl q) in ground arith
  | inr e ↦ e
]

-- The texts that a table holds under an identity.
module _ {A : Type 0} (key : A → Identity) (raw : A → Text) where
  unfoldable pub texts : Identity → List A → List Text
  texts q [] = []
  texts q (x ∷ xs) = let rest = texts q xs in if same q (key x) then raw x ∷ rest else rest

  pub texts-select :
      (q : Identity) (g : Identity → Bool) (xs : List A)
      → g q ≡ true
      → texts q (select (λ x. g (key x)) xs) ≡ texts q xs
  unfolding texts select
  texts-select q g [] h = refl
  texts-select q g (x ∷ xs) h = elim (Bool-cases (same q (key x))) [
    | inl e ↦
        let t : g (key x) ≡ true = subst (λ k. g k ≡ true) (same_sound q (key x) e) h in
        rw (t, e) (ap (λ u. raw x ∷ u) (texts-select q g xs h))
    | inr e ↦ elim (Bool-cases (g (key x))) [
      | inl t ↦ rw (t, e) (texts-select q g xs h)
      | inr t ↦ rw (t, e) (texts-select q g xs h)
    ]
  ]

  pub texts-drop :
      (q : Identity) (g : Identity → Bool) (xs : List A)
      → g q ≡ false
      → texts q (select (λ x. g (key x)) xs) ≡ []
  unfolding texts select
  texts-drop q g [] h = refl
  texts-drop q g (x ∷ xs) h = elim (Bool-cases (g (key x))) [
    | inl t ↦ elim (Bool-cases (same q (key x))) [
      | inl e ↦
          let u : g q ≡ true = subst (λ k. g k ≡ true) (sym (same_sound q (key x) e)) t in
          ground arith
      | inr e ↦ rw (t, e) (texts-drop q g xs h)
    ]
    | inr t ↦ rw t (texts-drop q g xs h)
  ]

  pub texts-++ : (q : Identity) (xs ys : List A) → texts q (xs ++ ys) ≡ texts q xs ++ texts q ys
  unfolding texts
  texts-++ q [] ys = refl
  texts-++ q (x ∷ xs) ys = elim (Bool-cases (same q (key x))) [
    | inl e ↦ rw e (ap (λ u. raw x ∷ u) (texts-++ q xs ys))
    | inr e ↦ rw e (texts-++ q xs ys)
  ]

  pub texts-none :
      (q : Identity) (xs : List A) → any (λ x. same q (key x)) xs ≡ false → texts q xs ≡ []
  unfolding texts any
  texts-none q [] h = refl
  texts-none q (x ∷ xs) h = elim (Bool-cases (same q (key x))) [
    | inl e ↦ let u : (same q (key x) || any (λ y. same q (key y)) xs) ≡ false = h in ground arith
    | inr e ↦ rw e (
        texts-none q xs
          (let u : (same q (key x) || any (λ y. same q (key y)) xs) ≡ false = h in ground arith))
  ]

  pub texts-some :
      (q : Identity) (xs : List A) → texts q xs ≡ [] → any (λ x. same q (key x)) xs ≡ false
  unfolding texts any
  texts-some q [] h = refl
  texts-some q (x ∷ xs) h = elim (Bool-cases (same q (key x))) [
    | inl e ↦ cc (rw (texts, e) at h)
    | inr e ↦ rw e (texts-some q xs (rw (texts, e) at h))
  ]

abbrev pub artifact_texts : Identity → List TextArtifact → List Text
artifact_texts = texts artifact_identity (λ a. a.raw_text)

abbrev pub row_texts : Identity → List FtsRow → List Text
row_texts = texts row_identity (λ r. r.raw_text)

pub data AtMostOne : List Text → Type 0 where
  nothing : AtMostOne []
  just_one : {t : Text} → AtMostOne (t ∷ [])

pub texts-replace_fts :
    (q : Identity) (r : FtsRow) (rs : List FtsRow)
    → row_texts q (replace_fts r rs)
      ≡ (if same q (row_identity r) then r.raw_text ∷ [] else row_texts q rs)
unfolding replace_fts texts
texts-replace_fts q r rs =
    let g : Identity → Bool = λ k. not (same (row_identity r) k) in
    elim (Bool-cases (same q (row_identity r))) [
      | inl e ↦
          let eq : q ≡ row_identity r = same_sound q (row_identity r) e in
          let gone : g q ≡ false =
            subst (λ k. g k ≡ false) (sym eq) (ap not (same_refl (row_identity r))) in
          rw (e, texts-drop row_identity (λ r. r.raw_text) q g rs gone) refl
      | inr e ↦
          let kept : g q ≡ true = ap not (same_sym q (row_identity r) e) in
          rw (e, texts-select row_identity (λ r. r.raw_text) q g rs kept) refl
    ]

AtMostOne-tail : {t : Text} {ts : List Text} → AtMostOne (t ∷ ts) → ts ≡ []
AtMostOne-tail just_one = refl

pub texts-upsert_artifact :
    (q : Identity) (a : TextArtifact) (bs : List TextArtifact)
    → AtMostOne (artifact_texts q bs)
    → artifact_texts q (upsert_artifact a bs)
      ≡ (if same q (artifact_identity a) then a.raw_text ∷ [] else artifact_texts q bs)
unfolding upsert_artifact texts
texts-upsert_artifact q a [] one = refl
texts-upsert_artifact q a (b ∷ bs) one =
    let ia = artifact_identity a in
    let ib = artifact_identity b in
    elim (Bool-cases (same ia ib)) [
      | inl t ↦
          let moved : same q ia ≡ same q ib = ap (same q) (same_sound ia ib t) in
          elim (Bool-cases (same q ib)) [
            | inl e ↦ rw (t, moved, e, AtMostOne-tail (rw (texts, e) at one)) refl
            | inr e ↦ rw (t, moved, e) refl
          ]
      | inr t ↦ elim (Bool-cases (same q ib)) [
        | inl e ↦
            let other : same q ia ≡ false =
              subst (λ k. same k ia ≡ false) (sym (same_sound q ib e)) (same_sym ia ib t) in
            let alone : artifact_texts q bs ≡ [] = AtMostOne-tail (rw (texts, e) at one) in
            let again = texts-upsert_artifact q a bs (rw alone nothing) in
            rw (t, e, other) (ap (λ u. b.raw_text ∷ u) (rw (texts, other) at again))
        | inr e ↦ rw (t, e) (texts-upsert_artifact q a bs (rw (texts, e) at one))
      ]
    ]
