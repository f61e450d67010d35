-- ===== src/Sessions/Tests.antt =====
-- The sessions at concrete networks.
use anqa_core.Common.{◌≡◌, refl, true, false, none, some, ltb, if◌then◌else◌, ◌*◌}
use anqa_core.Common.Async.{ok}
use anqa_core.Sessions.{
  Net, Page, wait_for_session_grant, require_trading_session, session_grant_is_fresh,
}
use anqa_core.Sessions.Grants.{Readied, require_trading_session-Readied}
use anqa_core.Sessions.Token.{
  Login, tee_token, advance, at_start, shared_request, load, call, answer,
}
use anqa_core.Sessions.Token.Single.{IsSingle, Reached-IsSingle}

-- The clone shows the grant from the fourth await on.
abbrev pub clone : Net
clone = record {
  fetch = λ n. if ltb n 3 then none else some (record { session_key = 7; expires_at = 1_000 });
  now = λ n. 250 * n;
  rejects = λ n. false;
}

abbrev pub fresh_page : Page
fresh_page = record { awaits = 0; verified = none; submitted = 0 }

one_grant : require_trading_session clone 7 false fresh_page ≡ (
  ok tt,
  record {
    awaits = 4;
    verified = some (record { session_key = 7; expires_at = 1_000 });
    submitted = 1;
  },
)
unfolding require_trading_session session_grant_is_fresh wait_for_session_grant
one_grant = refl

require_trading_session-Readied_example :
    Readied clone 7 false fresh_page (require_trading_session clone 7 false fresh_page)
require_trading_session-Readied_example = require_trading_session-Readied clone 7 false fresh_page

-- Two readers ask for the token of one owner, and the wallet rejects the challenge.
abbrev loaded : Login
loaded = at_start 100_000 (λ k. none)

abbrev asked : Login
asked = (tee_token true true 5 (tee_token true true 5 loaded).1).1

second_shares : (tee_token true true 5 (tee_token true true 5 loaded).1).0 ≡ shared_request
unfolding tee_token
second_shares = refl

Reached-IsSingle_example : IsSingle (advance 0 false none (advance 0 true none asked))
Reached-IsSingle_example = Reached-IsSingle (
    answer 0 false none
      (answer 0 true none (call true true 5 (call true true 5 (load 100_000 (λ k. none))))))
