-- ===== src/Limiter.antt =====
-- pkg/script/limiter.go, the sliding-window rate limiter. Times and durations are nanoseconds as natural
-- numbers: the one caller (pkg/script/engine.go) refuses options that are not positive. The clock that
-- `check` reads is its argument `now`; the maps' lock makes each call one step.
pub mod Counts
pub mod Memory
pub mod Others
pub mod Window
pub mod Decisions
use funsip.Base.{
  ℕ, ◌+◌, Bool, true, false, not, ◌&&◌, Option, none, some, List, [], ◌∷◌, ◌++◌, ltb, leb,
  if◌then◌else◌, length, keep_if, lookup, insert, delete,
}
use funsip.Text.{Text, text_keys, is_empty}

pub record LimitOpts : Type 0 where
  pub window : ℕ
  pub max_count : ℕ
  pub ttl : ℕ
  pub blacklist : Bool

pub record RateLimiter : Type 0 where
  pub hits : List (Text × List ℕ)
  pub key_deny : List (Text × ℕ)
  pub ip_deny : List (Text × ℕ)

-- newRateLimiter
unfoldable pub new_rate_limiter : RateLimiter
new_rate_limiter = record { hits = []; key_deny = []; ip_deny = [] }

-- `hits[key]`, where a missing key reads as no hits
abbrev pub some_hits : Option (List ℕ) → List ℕ
some_hits none = []
some_hits (some ts) = ts

abbrev pub hits_of : Text → RateLimiter → List ℕ
hits_of key l = some_hits (lookup text_keys key l.hits)

abbrev ip_gate : Option ℕ → Text → ℕ → RateLimiter → Option RateLimiter
ip_gate none ip now l = some l
ip_gate (some t) ip now l =
    if ltb now t then none else some (record l { ip_deny = delete text_keys ip l.ip_deny })

-- `none` is a denial. An entry whose time is over is dropped.
unfoldable pub past_ip : Text → ℕ → RateLimiter → Option RateLimiter
past_ip ip now l = if is_empty ip then some l else ip_gate (lookup text_keys ip l.ip_deny) ip now l

abbrev key_gate : Option ℕ → Text → ℕ → RateLimiter → Option RateLimiter
key_gate none key now l = some l
key_gate (some t) key now l =
    if ltb now t
    then none
    else some (record l {
      key_deny = delete text_keys key l.key_deny;
      hits = delete text_keys key l.hits;
    })

unfoldable pub past_key : Text → ℕ → RateLimiter → Option RateLimiter
past_key key now l = key_gate (lookup text_keys key l.key_deny) key now l

-- `t.After(now.Add(-window))`
abbrev pub in_window : ℕ → ℕ → ℕ → Bool
in_window window now t = ltb now (t + window)

abbrev pub deny : Text → Text → LimitOpts → ℕ → List ℕ → RateLimiter → RateLimiter
deny key ip opts now valid l = record l {
  hits = insert text_keys key valid l.hits;
  key_deny = insert text_keys key (now + opts.ttl) l.key_deny;
  ip_deny =
      if opts.blacklist && not (is_empty ip)
      then insert text_keys ip (now + opts.ttl) l.ip_deny
      else l.ip_deny;
}

abbrev pub allow : Text → ℕ → List ℕ → RateLimiter → RateLimiter
allow key now valid l = record l { hits = insert text_keys key (valid ++ now ∷ []) l.hits }

abbrev pub by_count : Text → Text → LimitOpts → ℕ → List ℕ → RateLimiter → RateLimiter × Bool
by_count key ip opts now valid l =
    if leb opts.max_count (length valid)
    then (deny key ip opts now valid l, false)
    else (allow key now valid l, true)

unfoldable pub count_hit : Text → Text → LimitOpts → ℕ → RateLimiter → RateLimiter × Bool
count_hit key ip opts now l =
    by_count key ip opts now (keep_if (in_window opts.window now) (hits_of key l)) l

abbrev after_key :
    Option RateLimiter → Text → Text → LimitOpts → ℕ → RateLimiter → RateLimiter × Bool
after_key none key ip opts now l = (l, false)
after_key (some l') key ip opts now l = count_hit key ip opts now l'

abbrev after_ip :
    Option RateLimiter → Text → Text → LimitOpts → ℕ → RateLimiter → RateLimiter × Bool
after_ip none key ip opts now l = (l, false)
after_ip (some l') key ip opts now l = after_key (past_key key now l') key ip opts now l'

-- check: the new limiter, and whether the request is allowed.
unfoldable pub check : Text → Text → LimitOpts → ℕ → RateLimiter → RateLimiter × Bool
unfolding past_ip past_key count_hit
check key ip opts now l = after_ip (past_ip ip now l) key ip opts now l
