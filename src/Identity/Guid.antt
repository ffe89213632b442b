-- ===== src/Identity/Guid.antt =====
-- The text of a user id (src/main/identity/DomainUserId.ts) and the user id are one for one.
use convergence_client_javas.Base.{
  ℕ, suc, ◌↔◌, ◌≡◌, refl, sym, ap, subst, ◌∙◌, inl, inr, Bool-cases, Option, none, some,
  some-injective, List, [], ◌∷◌, ◌++◌, take, drop, ◌==◌, ==_iff, same_text, same_text-eq, ok,
  throws, invalid_guid, ok-injective, ok≢throws, returned,
}
use convergence_client_javas.Identity.{
  DomainUserType, normal, convergence, anonymous, DomainUserId, type_text, guid, to_guid,
  after_first, index_of, to_domain_user_type, split_guid, from_guid,
}

from_guid-guid :
    (t : DomainUserType) (u : List ℕ)
    → from_guid (guid t u) ≡ ok (record { user_type = t; username = u })
unfolding from_guid guid type_text split_guid index_of after_first to_domain_user_type same_text
from_guid-guid normal u = refl
from_guid-guid convergence u = refl
from_guid-guid anonymous u = refl

from_guid-to_guid : (id : DomainUserId) → from_guid (to_guid id) ≡ ok id
unfolding to_guid
from_guid-to_guid id = from_guid-guid id.user_type id.username

later_splits :
    (c x : ℕ) (xs : List ℕ)
    → ((k : ℕ) → index_of c xs ≡ some k → take k xs ++ (c ∷ drop (suc k) xs) ≡ xs)
    → (r : Option ℕ) → index_of c xs ≡ r
    → (i : ℕ) → after_first r ≡ some i
    → take i (x ∷ xs) ++ (c ∷ drop (suc i) (x ∷ xs)) ≡ x ∷ xs
unfolding after_first
later_splits c x xs known none e i h = cc
later_splits c x xs known (some k) e i h =
    subst (λ n. take n (x ∷ xs) ++ (c ∷ drop (suc n) (x ∷ xs)) ≡ x ∷ xs) (some-injective h)
      (λ j. x ∷ known k e j)

index_of-splits :
    (c : ℕ) (xs : List ℕ) (i : ℕ) → index_of c xs ≡ some i → take i xs ++ (c ∷ drop (suc i) xs) ≡ xs
unfolding index_of
index_of-splits c [] i h = cc
index_of-splits c (x ∷ xs) i h = elim (Bool-cases (x == c)) [
  | inl e ↦
      let step : index_of c (x ∷ xs) ≡ some 0 = rw e refl in
      let at : 0 ≡ i = some-injective (sym step ∙ h) in
      subst (λ k. take k (x ∷ xs) ++ (c ∷ drop (suc k) (x ∷ xs)) ≡ x ∷ xs) at
        (λ j. sym ((==_iff x c).0 e) j ∷ xs)
  | inr e ↦
      let step : index_of c (x ∷ xs) ≡ after_first (index_of c xs) = rw e refl in
      later_splits c x xs (λ k g. index_of-splits c xs k g) (index_of c xs) refl i (sym step ∙ h)
]

type_text-of : (s : List ℕ) (t : DomainUserType) → to_domain_user_type s ≡ ok t → type_text t ≡ s
unfolding to_domain_user_type
type_text-of s t h = elim (Bool-cases (same_text s (type_text normal))) [
  | inl e ↦
      let step : to_domain_user_type s ≡ ok normal = rw e refl in
      sym (same_text-eq s (type_text normal) e ∙ ap type_text (ok-injective (sym step ∙ h)))
  | inr e ↦ elim (Bool-cases (same_text s (type_text convergence))) [
    | inl f ↦
        let step : to_domain_user_type s ≡ ok convergence = rw (e, f) refl in
        sym (same_text-eq s (type_text convergence) f ∙ ap type_text (ok-injective (sym step ∙ h)))
    | inr f ↦ elim (Bool-cases (same_text s (type_text anonymous))) [
      | inl g ↦
          let step : to_domain_user_type s ≡ ok anonymous = rw (e, f, g) refl in
          sym (same_text-eq s (type_text anonymous) g ∙ ap type_text (ok-injective (sym step ∙ h)))
      | inr g ↦
          let step : to_domain_user_type s ≡ throws invalid_guid = rw (e, f, g) refl in
          absurd (ok≢throws (sym h ∙ step))
    ]
  ]
]

module _ (text : List ℕ) (id : DomainUserId) where
  split_guid-back :
      (r : Option ℕ) → index_of b':' text ≡ r → split_guid text r ≡ ok id → to_guid id ≡ text
  unfolding split_guid to_guid guid
  split_guid-back none e h = absurd (ok≢throws (sym h))
  split_guid-back (some i) e h =
      let r =
        returned (to_domain_user_type (take i text))
          (λ t. ok (record { user_type = t; username = drop (suc i) text })) id h in
      ap to_guid (sym (ok-injective r.rest))
      ∙ (ap (λ z. z ++ (b':' ∷ drop (suc i) text)) (type_text-of (take i text) r.value r.first)
          ∙ index_of-splits b':' text i e)

to_guid-from_guid : (text : List ℕ) (id : DomainUserId) → from_guid text ≡ ok id → to_guid id ≡ text
unfolding from_guid
to_guid-from_guid [] id h = absurd (ok≢throws (sym h))
to_guid-from_guid (x ∷ xs) id h = split_guid-back (x ∷ xs) id (index_of b':' (x ∷ xs)) refl h

-- A text is read as a user id exactly when it is the text of that user id, also when the name has
-- a separator in it.
pub from_guid-to_guid_iff :
    (text : List ℕ) (id : DomainUserId) → (from_guid text ≡ ok id) ↔ (to_guid id ≡ text)
from_guid-to_guid_iff text id =
    (to_guid-from_guid text id, λ e. ap from_guid (sym e) ∙ from_guid-to_guid id)
