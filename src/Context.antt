-- ===== src/Context.antt =====
-- Go's context.Context, as far as the code derives one from another: what a context reports is up to
-- the environment of the operation that runs under it.
use go_nat.Base.{ℕ}

pub data Context : Type 0 where
  -- the context that the caller handed over
  caller : Context
  background : Context
  -- context.WithTimeout, in nanoseconds
  with_timeout : ℕ → Context → Context
  -- context.WithoutCancel
  without_cancel : Context → Context
  -- context.WithCancel
  with_cancel : Context → Context
