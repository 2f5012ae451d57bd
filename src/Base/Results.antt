-- ===== src/Base/Results.antt =====
-- `anyhow::Result`, an error as its text.
use Prim.Native.String.{String}

pub data Result {ℓ} (A : Type ℓ) : Type ℓ where
  ok : A → Result A
  err : String → Result A
