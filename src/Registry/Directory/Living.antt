-- ===== src/Registry/Directory/Living.antt =====
-- What `std::weak_ptr::lock` makes of the contexts that a map holds.
use linux.Base.{
  ℕ, ◌≡◌, refl, inl, inr, Bool, true, false, Option, none, some, Bytes, ◌==◌, if◌then◌else◌,
  Bool-cases,
}
use linux.Registry.{ClientContext, lock}
use linux.Registry.Directory.{renamed}

pub lock-if :
    (f : ℕ → Bool) (c : Bool) (x y : Option ClientContext)
    → lock f (if c then x else y) ≡ (if c then lock f x else lock f y)
lock-if f true x y = refl
lock-if f false x y = refl

pub lock_same :
    (f g : ℕ → Bool) → ((s : ℕ) → f s ≡ g s) → (o : Option ClientContext) → lock f o ≡ lock g o
unfolding lock
lock_same f g h none = refl
lock_same f g h (some ctx) = rw (h ctx.serial) refl

-- A context that is destroyed after others.
pub lock-destroyed :
    (f : ℕ → Bool) (serial : ℕ) (o : Option ClientContext)
    → lock (λ other. if other == serial then true else f other) o
      ≡ lock (λ other. other == serial) (lock f o)
unfolding lock
lock-destroyed f serial none = refl
lock-destroyed f serial (some ctx) = elim (Bool-cases (f ctx.serial)) [
  | inl e ↦ elim (Bool-cases (ctx.serial == serial)) [
    | inl e' ↦ rw (e, e') refl
    | inr e' ↦ rw (e, e') refl
  ]
  | inr e ↦ elim (Bool-cases (ctx.serial == serial)) [
    | inl e' ↦ rw (e, e') refl
    | inr e' ↦ rw (e, e') refl
  ]
]

pub lock-renamed :
    (f : ℕ → Bool) (serial : ℕ) (account_id : Bytes) (o : Option ClientContext)
    → lock f (renamed serial account_id o) ≡ renamed serial account_id (lock f o)
unfolding lock
lock-renamed f serial account_id none = refl
lock-renamed f serial account_id (some ctx) = either (ctx.serial == serial) (f ctx.serial) refl refl
  where
    either :
        (b c : Bool)
        → (ctx.serial == serial) ≡ b
        → f ctx.serial ≡ c
        → lock f (renamed serial account_id (some ctx))
          ≡ renamed serial account_id (lock f (some ctx))
    either true true e e' = rw (e, e') refl
    either true false e e' = rw (e, e', e) refl
    either false true e e' = rw (e, e') refl
    either false false e e' = rw (e, e', e) refl
