-- ===== src/Outbox/Saving.antt =====
-- `save` creates or updates one event: core/db/repositories/outbox_repo.py.
use sentinel_wp.Base.{
  ℕ, ◌+◌, ◌≡◌, refl, Bool, true, false, none, some, [], ◌∷◌, ◌++◌, arith, ◌==◌, length,
  length-append, find, any_of, is_some, Bool-cases, Option-cases, inl, inr,
}
use sentinel_wp.Base.Table.{get_row, modify_row}
use sentinel_wp.Outbox.{IntegrationOutbox, Events, event_row}
use sentinel_wp.Outbox.Queue.{save, saved_row, same_key, update_columns, new_row}

length-modify_row :
    (k : ℕ) (f : IntegrationOutbox → IntegrationOutbox) (t : Events)
    → length (modify_row event_row k f t) ≡ length t
length-modify_row k f [] = refl
length-modify_row k f (m ∷ t) = ground (arith, length-modify_row k f t)

-- `save` refuses only a new event whose key another event has already; otherwise the table grows by
-- one row exactly when no event with the id, or with the tenant and the key, was there.
pub save_cases :
    (now : ℕ) (o : IntegrationOutbox) (t : Events)
    → ((m : IntegrationOutbox)
        → saved_row o t ≡ some m
        → (t' : Events) × (save now o t ≡ some (t', update_columns o m)) × (length t' ≡ length t))
      × (saved_row o t ≡ none
          → any_of (λ m. m.event_key == o.event_key) t ≡ false
          → (t' : Events) × (save now o t ≡ some (t', new_row now o)) × (length t' ≡ length t + 1))
      × (saved_row o t ≡ none
          → any_of (λ m. m.event_key == o.event_key) t ≡ true
          → save now o t ≡ none)
save_cases now o t = (
  (λ m e. (
    modify_row event_row m.id (update_columns o) t,
    unfold save in ground arith,
    length-modify_row m.id (update_columns o) t,
  )),
  (λ e free.
      (t ++ new_row now o ∷ [], unfold save in ground arith, length-append t (new_row now o ∷ []))),
  λ e taken. unfold save in ground arith,
)

find-modify_row :
    (p : IntegrationOutbox → Bool) (k : ℕ) (f : IntegrationOutbox → IntegrationOutbox) (t : Events)
    → ((m : IntegrationOutbox) → p (f m) ≡ p m)
    → is_some (find p (modify_row event_row k f t)) ≡ is_some (find p t)
find-modify_row p k f [] h = refl
find-modify_row p k f (m ∷ t) h = ground (arith, h m, find-modify_row p k f t h)

get_row-modified_is_some :
    (j k : ℕ) (f : IntegrationOutbox → IntegrationOutbox) (t : Events)
    → ((m : IntegrationOutbox) → (f m).id ≡ m.id)
    → is_some (get_row event_row j (modify_row event_row k f t)) ≡ is_some (get_row event_row j t)
get_row-modified_is_some j k f [] h = refl
get_row-modified_is_some j k f (m ∷ t) h = ground (arith, h m, get_row-modified_is_some j k f t h)

saved_row-modified :
    (o : IntegrationOutbox) (k : ℕ) (t : Events)
    → is_some (saved_row o (modify_row event_row k (update_columns o) t)) ≡ is_some (saved_row o t)
saved_row-modified o k t = ground (
  arith,
  get_row-modified_is_some o.id k (update_columns o) t (λ _. refl),
  find-modify_row (same_key o) k (update_columns o) t (λ _. refl),
)

get_row-appended :
    (k : ℕ) (t : Events) (x : IntegrationOutbox)
    → x.id ≡ k
    → is_some (get_row event_row k (t ++ x ∷ [])) ≡ true
get_row-appended k [] x e = ground arith
get_row-appended k (m ∷ t) x e = ground (arith, get_row-appended k t x e)

saved_row-appended :
    (now : ℕ) (o : IntegrationOutbox) (t : Events)
    → is_some (saved_row o (t ++ new_row now o ∷ [])) ≡ true
saved_row-appended now o t = ground (arith, get_row-appended o.id t (new_row now o) refl)

saved_row-save :
    (now : ℕ) (o r : IntegrationOutbox) (t t' : Events)
    → save now o t ≡ some (t', r)
    → is_some (saved_row o t') ≡ true
unfolding save
saved_row-save now o r t t' saved = elim (Option-cases (saved_row o t)) [
  | inl e ↦ elim (Bool-cases (any_of (λ m. m.event_key == o.event_key) t)) [
    | inl taken ↦ ground arith
    | inr free ↦ ground (arith, saved_row-appended now o t)
  ]
  | inr (m, e) ↦ ground (arith, saved_row-modified o m.id t)
]

-- Saving an event again never adds a row: at-least-once delivery of a save stores one event.
pub save_again :
    (now now' : ℕ) (o r : IntegrationOutbox) (t t' : Events)
    → save now o t ≡ some (t', r)
    → (t'' : Events) × (r' : IntegrationOutbox) × (save now' o t' ≡ some (t'', r'))
      × (length t'' ≡ length t')
save_again now now' o r t t' saved = elim (Option-cases (saved_row o t')) [
  | inl gone ↦ ground (arith, saved_row-save now o r t t' saved)
  | inr (m, e) ↦
      let (t'', again, same) = (save_cases now' o t').0 m e in
      (t'', update_columns o m, again, same)
]
