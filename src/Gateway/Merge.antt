-- ===== src/Gateway/Merge.antt =====
-- nat.go: mergeNATs. Each source has a goroutine that forwards its values, one more closes the merged
-- channel, and any of them may go on at any time.
pub mod Moves
pub mod Interleave
pub mod Complete
pub mod Once
pub mod Finish
mod Examples
pub mod Flow
pub mod Sources
use go_nat.Base.{Bool, true, false, ◌≡◌, Option, some, none, List, [], ◌∷◌, ◌++◌}
use go_nat.Base.Lists.{All}

-- Where the goroutine of a source stands.
pub data Forwarder (A : Type 0) : Type 0 where
  -- at the select statement that receives
  receiving : Forwarder A
  -- at the one that sends `nat`
  sending : (nat : A) → Forwarder A
  -- it has returned, and has called wg.Done
  returned : Forwarder A

pub record Channel (A : Type 0) : Type 0 where
  -- sent into the channel, and not received from it yet
  pub buffer : List A
  pub closed : Bool

-- A source with its goroutine. `sent` and `passed` are the history of the source: all that was sent
-- into it, and what of it went out on the merged channel.
pub record Source (A : Type 0) : Type 0 where
  pub buffer : List A
  pub closed : Bool
  pub forwarder : Forwarder A
  pub sent : List A
  pub passed : List A

pub record Merge (A : Type 0) : Type 0 where
  pub sources : List (Source A)
  -- what the reader has received from the merged channel
  pub out : List A
  pub out_closed : Bool
  -- ctx.Done() is closed
  pub cancelled : Bool

-- One element of a list moves, and the others stay.
pub data At {A : Type 0} (R : A → A → Type 0) : List A → List A → Type 0 where
  first : {x y : A} {xs : List A} → R x y → At R (x ∷ xs) (y ∷ xs)
  later : {x : A} {xs ys : List A} → At R xs ys → At R (x ∷ xs) (x ∷ ys)

module _ {A : Type 0} where
  -- The loop of a goroutine, where it does not send.
  pub data Forward (done : Bool) (s : Source A) : Source A → Type 0 where
    receive :
        (nat : A) (rest : List A)
        → s.forwarder ≡ receiving
        → s.buffer ≡ nat ∷ rest
        → Forward done s (record s { buffer = rest; forwarder = sending nat })
    see_closed :
        s.forwarder ≡ receiving
        → s.buffer ≡ []
        → s.closed ≡ true
        → Forward done s (record s { forwarder = returned })
    stop_receiving :
        s.forwarder ≡ receiving → done ≡ true → Forward done s (record s { forwarder = returned })
    stop_sending :
        (nat : A)
        → s.forwarder ≡ sending nat
        → done ≡ true
        → Forward done s (record s { forwarder = returned })

  -- It sends a value to the reader.
  pub data Send (nat : A) (s : Source A) : Source A → Type 0 where
    send :
        s.forwarder ≡ sending nat
        → Send nat s (record s { forwarder = receiving; passed = s.passed ++ (nat ∷ []) })

  -- What the other side of a source does.
  pub data Feed (s : Source A) : Source A → Type 0 where
    publish :
        (nat : A)
        → s.closed ≡ false
        → Feed s (record s { buffer = s.buffer ++ (nat ∷ []); sent = s.sent ++ (nat ∷ []) })
    close : s.closed ≡ false → Feed s (record s { closed = true })

  -- wg.Wait() goes on when every goroutine has returned.
  abbrev pub AllReturned : List (Source A) → Type 0
  AllReturned = All (λ s. s.forwarder ≡ returned)

  -- A step of the goroutines that needs no reader.
  pub data Own (m : Merge A) : Merge A → Type 0 where
    forward :
        {ss : List (Source A)}
        → At (Forward m.cancelled) m.sources ss
        → Own m (record m { sources = ss })
    close_out :
        AllReturned m.sources → m.out_closed ≡ false → Own m (record m { out_closed = true })

  -- A value goes to the reader.
  pub data Deliver (m : Merge A) : Merge A → Type 0 where
    deliver :
        (nat : A) {ss : List (Source A)}
        → At (Send nat) m.sources ss
        → Deliver m (record m { sources = ss; out = m.out ++ (nat ∷ []) })

  -- A step of the surroundings.
  pub data Outside (m : Merge A) : Merge A → Type 0 where
    feed : {ss : List (Source A)} → At Feed m.sources ss → Outside m (record m { sources = ss })
    cancel : Outside m (record m { cancelled = true })

  pub data Step (m : Merge A) : Merge A → Type 0 where
    own : {n : Merge A} → Own m n → Step m n
    delivers : {n : Merge A} → Deliver m n → Step m n
    outside : {n : Merge A} → Outside m n → Step m n

  pub data Reach (m : Merge A) : Merge A → Type 0 where
    here : Reach m m
    next : {n k : Merge A} → Reach m n → Step n k → Reach m k

  -- The channel `c` and its goroutine, which has just begun.
  abbrev pub start : Channel A → Source A
  start c = record {
    buffer = c.buffer;
    closed = c.closed;
    forwarder = receiving;
    sent = c.buffer;
    passed = [];
  }

  -- The first loop: `none` is a nil channel, which gets no goroutine.
  unfoldable pub start_forwarders : List (Option (Channel A)) → List (Source A)
  start_forwarders [] = []
  start_forwarders (none ∷ sources) = start_forwarders sources
  start_forwarders (some c ∷ sources) = start c ∷ start_forwarders sources

  unfoldable pub merge_nats : List (Option (Channel A)) → Merge A
  merge_nats sources = record {
    sources = start_forwarders sources;
    out = [];
    out_closed = false;
    cancelled = false;
  }
