-- ===== src/Examples/LimiterRuns.antt =====
-- The limiter (pkg/script/limiter.go) on concrete inputs.
use funsip.Base.{ℕ, ◌≤◌, ◌≡◌, refl, true, false, List, [], ◌∷◌, arith}
use funsip.Text.{lit, text_eq}
use funsip.Limiter.{LimitOpts, RateLimiter, new_rate_limiter, check}
use funsip.Limiter.Counts.{count_in}
use funsip.Limiter.Window.{Call, replay, Conforms, window_bound}
use funsip.Limiter.Decisions.{Holds, short_denial_exceeds}

abbrev two_in_ten : LimitOpts
two_in_ten = record { window = 10; max_count = 2; ttl = 20; blacklist = true }

abbrev call : ℕ → Call
call t = record { key = lit "k"; ip = lit "1.2.3.4"; opts = two_in_ten; at = t }

abbrev calls : List Call
calls = call 1 ∷ call 2 ∷ call 3 ∷ call 25 ∷ []

calls_passed : (replay (lit "k") new_rate_limiter [] calls).1 ≡ 25 ∷ 2 ∷ 1 ∷ []
unfolding replay check new_rate_limiter
calls_passed = refl

calls_conform : Conforms (lit "k") 10 2 0 calls
calls_conform =
    (omega arith, ours, (omega arith, ours, (omega arith, ours, (omega arith, ours, tt))))
  where
    ours :
        text_eq (lit "k") (lit "k") ≡ true
        → (two_in_ten.window ≡ 10) × (two_in_ten.max_count ≡ 2) × (10 ≤ two_in_ten.ttl)
    ours e = (refl, refl, omega arith)

window_bound_example : count_in 10 25 (replay (lit "k") new_rate_limiter [] calls).1 ≤ 2
window_bound_example = window_bound (lit "k") 10 2 calls 25 calls_conform (omega arith)

nothing_held : Holds 2 new_rate_limiter
unfolding new_rate_limiter
nothing_held k = omega arith

abbrev full : RateLimiter
full = record { hits = (lit "k", 1 ∷ 2 ∷ []) ∷ []; key_deny = []; ip_deny = [] }

short_denial_exceeds_example :
    let opts : LimitOpts = record { window = 10; max_count = 1; ttl = 3; blacklist = false } in
    let at : ℕ → Call = λ n. record { key = lit "k"; ip = []; opts = opts; at = n } in
    let first = check (lit "k") [] opts 7 new_rate_limiter in
    let second = check (lit "k") [] opts 7 first.0 in
    (first.1 ≡ true)
    × (second.1 ≡ false)
    × ((check (lit "k") [] opts 10 second.0).1 ≡ true)
    × (count_in 10 10 (replay (lit "k") new_rate_limiter [] (at 7 ∷ at 7 ∷ at 10 ∷ [])).1 ≡ 2)
    × ((check (lit "k") [] opts 10 first.0).1 ≡ false)
short_denial_exceeds_example = short_denial_exceeds (lit "k") 7 10 3 (omega arith) (omega arith)
