-- ===== src/ClientCore/Settling/Accounts.antt =====
-- Every submission to the client of packages/client-core/src/index.ts is pending or has got one
-- result, whatever happens.
use collabhub.Prelude.{ℕ}
use collabhub.ClientCore.State.{ClientOptions, Client}
use collabhub.ClientCore.Settling.{IsAccounted}

module _ {ℓ} {S : Type ℓ} (o : ClientOptions S) (k : ℕ) where
  abbrev Accounted : Client S → Type 0
  Accounted = IsAccounted k
