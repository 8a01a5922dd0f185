-- ===== src/Lineage/Synced/Update.antt =====
-- The update of the conditions in `ensureLineageSyncedTrue` of
-- internal/controller/lineage_controller.go.
use seam_core.Prelude.{
  ℕ, String, ◌≡◌, refl, ap, ◌∙◌, Bool, true, false, not, List, [], ◌∷◌, ◌++◌, arith, Bool-cases,
  inl, inr, any, select, any-append, get,
}
use seam_core.Kube.Object.{RawCondition, is_text}
use seam_core.Lineage.Synced.{
  is_synced_type, is_synced_true, synced_condition, replace_synced, synced_conditions,
}

synced_condition-type :
    (stamp name : String) (g : ℕ) → is_synced_type (synced_condition stamp name g) ≡ true
unfolding is_synced_type is_text synced_condition get
synced_condition-type stamp name g = refl

synced_condition-true :
    (stamp name : String) (g : ℕ) → is_synced_true (synced_condition stamp name g) ≡ true
unfolding is_synced_true is_text synced_condition get
synced_condition-true stamp name g = refl

module _ (new : RawCondition) (is_type : is_synced_type new ≡ true) where
  replace_synced-true :
      (cs : List RawCondition)
      → is_synced_true new ≡ true
      → any is_synced_type cs ≡ true
      → any is_synced_true (replace_synced new cs) ≡ true
  unfolding replace_synced
  replace_synced-true [] t h = h
  replace_synced-true (c ∷ cs) t h = elim (Bool-cases (is_synced_type c)) [
    | inl e ↦ rw (e, t) refl
    | inr e ↦ rw e (ground (arith, replace_synced-true cs t))
  ]

  replace_synced-others :
      (cs : List RawCondition)
      → select (λ c. not (is_synced_type c)) (replace_synced new cs)
        ≡ select (λ c. not (is_synced_type c)) cs
  unfolding replace_synced
  replace_synced-others [] = refl
  replace_synced-others (c ∷ cs) = elim (Bool-cases (is_synced_type c)) [
    | inl e ↦ rw (e, is_type) (replace_synced-others cs)
    | inr e ↦ rw (e, e) (ap (λ l. c ∷ l) (replace_synced-others cs))
  ]

select-append :
    (f : RawCondition → Bool) (cs : List RawCondition) (c : RawCondition)
    → f c ≡ false
    → select f (cs ++ c ∷ []) ≡ select f cs
select-append f [] c h = rw h refl
select-append f (d ∷ cs) c h = rw (select-append f cs c h) refl

-- The updated conditions have a LineageSynced condition that is True, and the conditions of other
-- types are those from before, in their order.
pub synced_conditions_lem :
    (stamp name : String) (g : ℕ) (cs : List RawCondition)
    → let after = synced_conditions (synced_condition stamp name g) cs in
      (any is_synced_true after ≡ true)
      × (select (λ c. not (is_synced_type c)) after ≡ select (λ c. not (is_synced_type c)) cs)
unfolding synced_conditions
synced_conditions_lem stamp name g cs =
    let new = synced_condition stamp name g in
    let t = synced_condition-type stamp name g in
    let u = synced_condition-true stamp name g in
    elim (Bool-cases (any is_synced_type cs)) [
      | inl e ↦ rw e (replace_synced-true new t cs u e, replace_synced-others new t cs)
      | inr e ↦ rw e (
        any-append is_synced_true (replace_synced new cs) (new ∷ []) ∙ ground (arith, u),
        select-append (λ c. not (is_synced_type c)) (replace_synced new cs) new (ap not t)
            ∙ replace_synced-others new t cs,
      )
    ]
