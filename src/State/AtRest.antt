-- ===== src/State/AtRest.antt =====
-- What the store uses of internal/state/crypto.go: the encryption of inputs and results under the
-- key of a workspace. A value stands for one configuration and one source of nonces.
use windforce_lite.Str.{Str}
use windforce_lite.Json.{Raw}
use windforce_lite.State.Result.{Result}

pub record AtRest : Type 0 where
  pub encrypt_input : Str → Raw → Result Raw
  pub decrypt_input : Str → Raw → Result Raw
  pub encrypt_result : Str → Raw → Result Raw
  pub decrypt_result : Str → Raw → Result Raw
