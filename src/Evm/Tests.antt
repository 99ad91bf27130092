-- ===== src/Evm/Tests.antt =====
-- A network whose first answer is a nonce conflict and whose second is lost.
use bosphor.Base.{◌+◌, ◌≤◌, ◌≡◌, refl, none, some, false, length, if◌then◌else◌, ◌==◌}
use bosphor.Base.Result.{ok, err}
use bosphor.Evm.NonceConflict.{ErrorValue}
use bosphor.Evm.Confirm.{Network, send_confirm_execution}
use bosphor.Evm.Resends.{AllFollow, EndsWith, send_confirm_execution-Resends}

abbrev conflict : ErrorValue
conflict =
    ErrorValue.object none (some "rpc")
      (ErrorValue.object (some "REPLACEMENT_UNDERPRICED") none ErrorValue.plain)

abbrev network : Network
network = record {
  fee_data =
      ok (record {
        max_fee_per_gas = some 101;
        max_priority_fee_per_gas = none;
        gas_price = some 90;
      });
  pending = λ n. ok (7 + n);
  confirm =
      λ n. if n == 1 then err conflict else if n == 2 then err ErrorValue.plain else ok "0xhash";
  matches = λ message. false;
}

sent_thrice : (send_confirm_execution network).0 ≡ ok "0xhash"
unfolding send_confirm_execution
sent_thrice = refl

send_confirm_execution-Resends_example :
    (length (send_confirm_execution network).1 ≤ 3)
    × AllFollow network 1 (send_confirm_execution network).1
    × EndsWith network 0
        (length (send_confirm_execution network).1)
        (send_confirm_execution network).0
send_confirm_execution-Resends_example = send_confirm_execution-Resends network
