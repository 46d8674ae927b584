-- ===== src/Base/Outcome.antt =====
-- How a Go call ends: it returns, it panics, or it waits for ever on a mutex that nobody unlocks.
-- The state beside each ending is what the call has written by then.

pub data Outcome {ℓ} (S A : Type ℓ) : Type ℓ where
  done : A → S → Outcome S A
  panics : S → Outcome S A
  blocks : S → Outcome S A

-- A call that reads and writes the state `S`.
abbrev pub Exec {ℓ} : Type ℓ → Type ℓ → Type ℓ
Exec S A = S → Outcome S A

module _ {ℓ} {S A B : Type ℓ} where
  abbrev pub continue : Outcome S A → (A → Exec S B) → Outcome S B
  continue (done a s) f = f a s
  continue (panics s) f = panics s
  continue (blocks s) f = blocks s

  infixl 5 ◌>>=◌ ◌>>◌
  abbrev pub ◌>>=◌ : Exec S A → (A → Exec S B) → Exec S B
  ◌>>=◌ m f s = continue (m s) f

  abbrev pub ◌>>◌ : Exec S A → Exec S B → Exec S B
  m >> n = m >>= λ _. n

module _ {ℓ} {S A : Type ℓ} where
  abbrev pub pure : A → Exec S A
  pure a s = done a s

  abbrev pub gets : (S → A) → Exec S A
  gets f s = done (f s) s

  -- The state at the end of a call, however it ends.
  abbrev pub final : Outcome S A → S
  final (done a s) = s
  final (panics s) = s
  final (blocks s) = s

abbrev pub modify {ℓ} : {S : Type ℓ} → (S → S) → Exec S (Unit {ℓ})
modify f s = done tt (f s)
