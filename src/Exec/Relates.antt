-- ===== src/Exec/Relates.antt =====
-- A preorder between the state before a method and the state after it, whether the method returns
-- or raises: one rule for each way to build a method.
use gitlab_knowledege.Common.{Bool, true, false, if◌then◌else◌}
use gitlab_knowledege.Exec.{
  Error, Outcome, returned, raised, Exec, final, pure, raise, handle, catch, resume, ◌>>=◌,
  still_returns, still_raises, finish, finally,
}

pub record IsPreorder {ℓ} {S : Type ℓ} (R : S → S → Type ℓ) : Type ℓ where
  pub reflexive : (s : S) → R s s
  pub transitive : {s t u : S} → R s t → R t u → R s u

pub record Relates {ℓ} {S A : Type ℓ} (R : S → S → Type ℓ) (m : Exec S A) : Type ℓ where
  pub at : (s : S) → R s (final (m s))

module _ {ℓ} {S : Type ℓ} {R : S → S → Type ℓ} (order : IsPreorder R) where
  pub Relates-pure : {A : Type ℓ} (a : A) → Relates R (pure a)
  unfolding pure
  Relates-pure a = record { at = order.reflexive }

  pub Relates-raise : {A : Type ℓ} (e : Error) → Relates R (raise {A = A} e)
  unfolding raise
  Relates-raise e = record { at = order.reflexive }

  pub Relates-if :
      {A : Type ℓ} (b : Bool) (m n : Exec S A)
      → Relates R m
      → Relates R n
      → Relates R (if b then m else n)
  Relates-if true m n km kn = km
  Relates-if false m n km kn = kn

  module _ {A B : Type ℓ} where
    Relates-resume :
        (f : A → Exec S B) {s : S} (o : Outcome S A)
        → R s (final o)
        → ((a : A) → Relates R (f a))
        → R s (final (resume o f))
    Relates-resume f (returned a t) h kf = order.transitive h ((kf a).at t)
    Relates-resume f (raised e t) h kf = h

    pub Relates-bind :
        (m : Exec S A) (f : A → Exec S B)
        → Relates R m
        → ((a : A) → Relates R (f a))
        → Relates R (m >>= f)
    unfolding ◌>>=◌
    Relates-bind m f km kf = record { at = λ s. Relates-resume f (m s) (km.at s) kf }

  module _ {A : Type ℓ} where
    handled :
        (h : Error → Exec S A) {s : S} (o : Outcome S A)
        → R s (final o)
        → ((e : Error) → Relates R (h e))
        → R s (final (handle o h))
    handled h (returned a t) r k = r
    handled h (raised e t) r k = order.transitive r ((k e).at t)

    pub Relates-catch :
        (m : Exec S A) (h : Error → Exec S A)
        → Relates R m
        → ((e : Error) → Relates R (h e))
        → Relates R (catch m h)
    unfolding catch
    Relates-catch m h km kh = record { at = λ s. handled h (m s) (km.at s) kh }

  after_raised :
      (A : Type ℓ) {B : Type ℓ} (e : Error) {s : S} (o : Outcome S B)
      → R s (final o)
      → R s (final (still_raises {A = A} e o))
  after_raised A e (returned _ t) r = r
  after_raised A e (raised d t) r = r

  module _ {A B : Type ℓ} where
    after_returned :
        (a : A) {s : S} (o : Outcome S B) → R s (final o) → R s (final (still_returns a o))
    after_returned a (returned _ t) r = r
    after_returned a (raised e t) r = r

    finished :
        (k : Exec S B) {s : S} (o : Outcome S A)
        → R s (final o)
        → Relates R k
        → R s (final (finish o k))
    finished k (returned a t) r h = after_returned a (k t) (order.transitive r (h.at t))
    finished k (raised e t) r h = after_raised A e (k t) (order.transitive r (h.at t))

    pub Relates-finally :
        (m : Exec S A) (k : Exec S B) → Relates R m → Relates R k → Relates R (finally m k)
    unfolding finally
    Relates-finally m k km kk = record { at = λ s. finished k (m s) (km.at s) kk }
