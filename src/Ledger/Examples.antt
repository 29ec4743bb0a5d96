-- ===== src/Ledger/Examples.antt =====
-- The ledger's theorems at concrete passes.
use k8s_sustain.Prelude.{
  ◌+◌, ◌*◌, ◌^◌, ◌≤◌, ◌≡◌, refl, ◌↔◌, min, true, false, none, some, [], ◌∷◌, lookup, ℕ, arith,
  insert, pair_discrete, String-discrete,
}
use k8s_sustain.Prelude.Int.{pos, leb_ℤ, max_ℤ}
use k8s_sustain.Prelude.Time.{minute, second, sub}
use k8s_sustain.Ledger.{
  base_retry_delay, max_retry_delay, MemberKey, member_discrete, new_ledger, Ledger, done, failed,
}
use k8s_sustain.Ledger.Errors.{permanent_error, GoError, node, nothing, wrapped}
use k8s_sustain.Ledger.Recording.{Result, record_result, may_run}
use k8s_sustain.Ledger.Claims.{is_claimed}
use k8s_sustain.Ledger.Passes.{Pass, settle, retry_of, requeue_within}
use k8s_sustain.Ledger.Backoff
use k8s_sustain.Ledger.Known
use k8s_sustain.Ledger.Requeue
use k8s_sustain.Ledger.Backoff.{Run, record_all, count_of}
use k8s_sustain.Ledger.Known.{Reach, fresh, settled}

abbrev cart : MemberKey
cart = ("Deployment", ("shop", "cart"))

abbrev web : MemberKey
web = ("Deployment", ("shop", "web"))

-- A 503, wrapped once.
abbrev unavailable : GoError
unavailable =
    node false none "evicting: unavailable" (wrapped (node false (some 503) "unavailable" nothing))

abbrev cart_fails : Result
cart_fails = record {
  member = cart;
  kind = failed;
  pods = record { total = 0; stale = 0 };
  step = "patch";
  err = some unavailable;
}

abbrev web_is_done : Result
web_is_done = record {
  member = web;
  kind = done;
  pods = record { total = 3; stale = 1 };
  step = "";
  err = none;
}

abbrev now : ℕ
now = 1_000 * minute

abbrev pass : Pass
pass = (("shop", ("Deployment", "cart")), cart_fails ∷ web_is_done ∷ []) ∷ []

abbrev after_pass : Ledger
after_pass = (settle now "default" pass new_ledger).0

abbrev after_pass-Reach : Reach after_pass
after_pass-Reach = settled now "default" pass fresh

abbrev run : Run
run = (now, cart_fails) ∷ (now + minute, web_is_done) ∷ (now + 2 * minute, cart_fails) ∷ []

may_run-record_all_example :
    (may_run
        (now + 5 * minute)
        cart
        (record_result (now + 3 * minute) cart_fails (record_all run [])).0
      ≡ true)
    ↔ (now + 3 * minute + min (base_retry_delay * 2 ^ 2) max_retry_delay ≤ now + 5 * minute)
unfolding lookup pair_discrete String-discrete permanent_error
may_run-record_all_example =
    Backoff.may_run-record_all run cart_fails [] (now + 3 * minute) (now + 5 * minute) refl
      (refl, (refl, (refl, tt))) refl (omega arith)

Reach-is_claimed_example : is_claimed cart after_pass.claims ≡ true
unfolding lookup settle insert pair_discrete
Reach-is_claimed_example = Known.Reach-is_claimed after_pass cart after_pass-Reach refl

requeue_within-le_example :
    let delay = requeue_within now "default" (pos (10 * minute)) (pos second) after_pass in
    (leb_ℤ delay
        (max_ℤ (sub (retry_of (lookup member_discrete cart after_pass.members)) now) (pos second))
      ≡ true)
    × (leb_ℤ (pos second) delay ≡ true)
    × (leb_ℤ delay (pos (10 * minute)) ≡ true)
unfolding lookup settle insert pair_discrete
requeue_within-le_example =
    Requeue.requeue_within-le after_pass now "default" (pos (10 * minute)) (pos second) cart
      after_pass-Reach refl refl refl
