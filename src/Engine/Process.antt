-- ===== src/Engine/Process.antt =====
-- `process` and `run`, lines 144 to 158 of 4_order_book_proj/src/engine.hpp. The loop of `run` never
-- ends; `run` here is what it has done after a list of messages.
use low_level_programming.Shared.{ℕ, List, [], ◌∷◌, Outcome, ok, ◌>>=◌}
use low_level_programming.Messages.Decode.{UouchMessage, enter_request, cancel_request, decode}
use low_level_programming.Engine.State.{InboundMessage, Engine}
use low_level_programming.Engine.Send.{Timespec}
use low_level_programming.Engine.Match.{insert_order}
use low_level_programming.Engine.Cancel.{cancel_order}

module _ (buffer_size : ℕ) (clock : ℕ → Timespec) where
  -- A message of another kind is ignored.
  unfoldable pub dispatch : ℕ → UouchMessage → Engine → Outcome Engine
  unfolding insert_order cancel_order
  dispatch account (enter_request order) e =
      insert_order buffer_size clock account order e >>= λ (_, e'). ok e'
  dispatch account (cancel_request cancel) e =
      cancel_order buffer_size clock account cancel e >>= λ (_, e'). ok e'
  dispatch account _ e = ok e

  unfoldable pub process : InboundMessage → Engine → Outcome Engine
  unfolding decode dispatch
  process msg e = do decoded ← decode msg.bytes; dispatch msg.account decoded e

  unfoldable pub run : List InboundMessage → Engine → Outcome Engine
  unfolding process
  run [] e = ok e
  run (msg ∷ rest) e = process msg e >>= λ e'. run rest e'
