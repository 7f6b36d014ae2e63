-- ===== src/Census/Actions.antt =====
-- Sequences of calls on a loaded census, in which a call that fails changes nothing.
use ovote_node.Base.{◌∷◌, [], List, Bytes, Option, ℤ, Result, ok, err, panic}
use ovote_node.External.{Crypto}
use ovote_node.Census.Store.{CensusDb}
use ovote_node.Census.Operations.{set_err_msg, close, add_public_keys}

-- The methods of a loaded census that write.
pub data Action (c : Crypto) : Type 0 where
  add_batch_of : List c.PublicKey → List (Option ℤ) → Action c
  closing : Action c
  message : Bytes → Action c

module _ (c : Crypto) (d : CensusDb) where
  open d use {State}

  unfoldable pub perform : Action c → State → Result State
  perform (Action.add_batch_of ks ws) s = add_public_keys c d ks ws s
  perform Action.closing s = close c d s
  perform (Action.message m) s = set_err_msg c d m s

  -- The database after a call that may have failed.
  abbrev pub kept_or : State → Result State → State
  kept_or s (ok s') = s'
  kept_or s (err e) = s
  kept_or s panic = s

  unfoldable pub perform_all : List (Action c) → State → State
  unfolding perform
  perform_all [] s = s
  perform_all (a ∷ as') s = perform_all as' (kept_or s (perform a s))
