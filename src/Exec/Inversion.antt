-- ===== src/Exec/Inversion.antt =====
-- What a block that returned, or raised, has done on the way.
use mathlib.Core.Path.{fun_ext}
use gitlab_knowledege.Common.{◌≡◌, ◌⊎◌, inl, inr, refl, ap}
use gitlab_knowledege.Exec.{Error, Outcome, returned, raised, Exec, resume, ◌>>=◌}

module _ {ℓ} {S A B : Type ℓ} where
  pub resume-eq-returned :
      (o : Outcome S A) (f : A → Exec S B) (y : B) (t : S)
      → resume o f ≡ returned y t
      → (x : A) × (s : S) × (o ≡ returned x s) × (f x s ≡ returned y t)
  resume-eq-returned (returned x s) f y t h = (x, s, refl, h)
  resume-eq-returned (raised e s) f y t h = cc

  pub bind-eq-returned :
      (m : Exec S A) (f : A → Exec S B) (s : S) (y : B) (t : S)
      → (m >>= f) s ≡ returned y t
      → (x : A) × (s' : S) × (m s ≡ returned x s') × (f x s' ≡ returned y t)
  unfolding ◌>>=◌
  bind-eq-returned m f s y t h = resume-eq-returned (m s) f y t h

  resume-eq-raised :
      (o : Outcome S A) (f : A → Exec S B) (e : Error) (t : S)
      → resume o f ≡ raised e t
      → (o ≡ raised e t) ⊎ ((x : A) × (s : S) × (o ≡ returned x s) × (f x s ≡ raised e t))
  resume-eq-raised (returned x s) f e t h = inr (x, s, refl, h)
  resume-eq-raised (raised d s) f e t h = inl (cc)

  pub bind-eq-raised :
      (m : Exec S A) (f : A → Exec S B) (s : S) (e : Error) (t : S)
      → (m >>= f) s ≡ raised e t
      → (m s ≡ raised e t) ⊎ ((x : A) × (s' : S) × (m s ≡ returned x s') × (f x s' ≡ raised e t))
  unfolding ◌>>=◌
  bind-eq-raised m f s e t h = resume-eq-raised (m s) f e t h

module _ {ℓ κ} {S A B : Type ℓ} {P : Type κ} where
  -- The same, for a proof that goes on with the value and the state in between.
  pub bind_returned :
      (m : Exec S A) (f : A → Exec S B) (s : S) (y : B) (t : S)
      → (m >>= f) s ≡ returned y t
      → ((x : A) (s' : S) → m s ≡ returned x s' → f x s' ≡ returned y t → P)
      → P
  bind_returned m f s y t h k =
      let (x, s', first, rest) = bind-eq-returned m f s y t h in k x s' first rest

module _ {ℓ} {S A B C : Type ℓ} where
  resume_assoc :
      (o : Outcome S A) (f : A → Exec S B) (g : B → Exec S C)
      → resume (resume o f) g ≡ resume o (λ x. f x >>= g)
  unfolding ◌>>=◌
  resume_assoc (returned x s) f g = refl
  resume_assoc (raised e s) f g = refl

  pub bind_assoc :
      (m : Exec S A) (f : A → Exec S B) (g : B → Exec S C)
      → (m >>= f >>= g) ≡ (m >>= λ x. f x >>= g)
  unfolding ◌>>=◌
  bind_assoc m f g = fun_ext λ s. resume_assoc (m s) f g

-- A step that is known to return.
pub bind_run :
    {S A B : Type 0} (m : Exec S A) (f : A → Exec S B) {s t : S} {a : A}
    → m s ≡ returned a t
    → (m >>= f) s ≡ f a t
unfolding ◌>>=◌
bind_run m f e = ap (λ o. resume o f) e
