-- ===== src/Events/Sink.antt =====
-- Sink of pkg/events/events.go, for events of any type. A turn of the worker is one step; how a POST
-- ends is an argument.
use funsip.Base.{ℕ, ◌+◌, Bool, true, false, ◌||◌, List, [], ◌∷◌, ◌++◌, length, ltb, if◌then◌else◌}
use funsip.Text.{Text, is_empty, trim_space}

-- The request is not made, it fails, it is answered with 400 or more, or it is taken.
pub data Posting : Type 0 where
  not_encoded not_sent refused accepted : Posting

pub record Sink (A : Type 0) : Type 0 where
  pub url : Text
  pub queue : List A
  pub closed : Bool
  pub enqueued : ℕ
  pub posted : ℕ
  pub dropped : ℕ
  pub failed : ℕ

abbrev pub default_queue_size : ℕ
default_queue_size = 1024

module _ {A : Type 0} where
  -- NewSink
  unfoldable pub new_sink : Text → Sink A
  new_sink url = record {
    url = trim_space url;
    queue = [];
    closed = false;
    enqueued = 0;
    posted = 0;
    dropped = 0;
    failed = 0;
  }

  abbrev pub enqueue : A → Sink A → Sink A
  enqueue e s =
      if ltb (length s.queue) default_queue_size
      then record s { queue = s.queue ++ e ∷ []; enqueued = s.enqueued + 1 }
      else record s { dropped = s.dropped + 1 }

  -- Send
  unfoldable pub send : A → Sink A → Sink A
  send e s = if is_empty s.url || s.closed then s else enqueue e s

  -- post
  abbrev pub post : Posting → Sink A → Sink A
  post accepted s = record s { posted = s.posted + 1 }
  post not_encoded s = record s { failed = s.failed + 1 }
  post not_sent s = record s { failed = s.failed + 1 }
  post refused s = record s { failed = s.failed + 1 }

  abbrev pub work_on : List A → Posting → Sink A → Sink A
  work_on [] result s = s
  work_on (e ∷ rest) result s = post result (record s { queue = rest })

  -- A turn of the worker
  unfoldable pub work : Posting → Sink A → Sink A
  work result s = work_on s.queue result s

  -- The worker's loop over what is queued; behind the last result that is given, posts are taken.
  abbrev pub drain : List A → List Posting → Sink A → Sink A
  drain [] results s = s
  drain (e ∷ rest) [] s = drain rest [] (post accepted (record s { queue = rest }))
  drain (e ∷ rest) (result ∷ results) s =
      drain rest results (post result (record s { queue = rest }))

  -- Close
  unfoldable pub close : List Posting → Sink A → Sink A
  close results s = if s.closed then s else drain s.queue results (record s { closed = true })

pub record Stats : Type 0 where
  pub url : Text
  pub enqueued : ℕ
  pub posted : ℕ
  pub dropped : ℕ
  pub failed : ℕ

-- Stats
abbrev pub stats : {A : Type 0} → Sink A → Stats
stats s = record {
  url = s.url;
  enqueued = s.enqueued;
  posted = s.posted;
  dropped = s.dropped;
  failed = s.failed;
}
