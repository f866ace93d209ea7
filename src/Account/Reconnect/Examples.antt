-- ===== src/Account/Reconnect/Examples.antt =====
-- protocols/account.c: settings and delays, and the theorems at concrete ones.
use bitl_steam.Common.{◌≡◌, refl, true, false, codes}
use bitl_steam.Common.Outcome.{done}
use bitl_steam.Account.Reconnect.{
  Delay, number, after_step, after_start, account_reconnect_delay_parse, stepped, next_delay,
  account_reconnect_delay,
}

abbrev usual : Delay
usual = record { start = 5; op = b'*'; step = 3; max = 900 }

parse_usual : account_reconnect_delay_parse (codes "5*3<900") ≡ done (usual, true)
unfolding account_reconnect_delay_parse number after_start after_step
parse_usual = refl

-- Text behind the maximum, and missing numbers, are accepted.
parse_more :
    account_reconnect_delay_parse (codes "*3<900 days") ≡ done (record usual { start = 0 }, true)
unfolding account_reconnect_delay_parse number after_start after_step
parse_more = refl

parse_wrong : account_reconnect_delay_parse (codes "5*3<") ≡ done (record usual { max = 0 }, false)
unfolding account_reconnect_delay_parse number after_start after_step
parse_wrong = refl

first_delay : account_reconnect_delay (codes "5*3<900") 0 ≡ done 5
unfolding account_reconnect_delay next_delay stepped account_reconnect_delay_parse number
    after_start after_step
first_delay = refl

last_delay : account_reconnect_delay (codes "5*3<900") 405 ≡ done 900
unfolding account_reconnect_delay next_delay stepped account_reconnect_delay_parse number
    after_start after_step
last_delay = refl
