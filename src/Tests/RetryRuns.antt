-- ===== src/Tests/RetryRuns.antt =====
-- A notification that neither channel accepts, twice, and then both.
use postfix_m365_relay.Base.{◌≡◌, all, false, [], ◌∷◌, true, some, refl, codes, arith}
use postfix_m365_relay.Alert.Outbox.{
  backoff, postponed, deliver, attempt_channel, attempt_outbox, Courier, Delivery, File,
  retry_outbox,
}
use postfix_m365_relay.Alert.Lifecycle.{is_unreadable}
use postfix_m365_relay.Alert.Eventually.{none_left, and_early, retries, retry_outbox-delivers}

abbrev deaf : Courier
deaf = record {
  email_enabled = true;
  webhook_enabled = true;
  accepts = λ c payload audit. false;
  clock = λ audit. 1_000_000;
}

abbrev deaf_later : Courier
deaf_later = record deaf { clock = λ audit. 40_000_000 }

abbrev open_again : Courier
open_again = record deaf { accepts = λ c payload audit. true; clock = λ audit. 3_640_000_000 }

abbrev new_delivery : Delivery
new_delivery = record { pending = true; attempts = 0; next_attempt = 0 }

abbrev outage_file : File
outage_file = record {
  stamp = 1000;
  content = some (record {
    payload = record {
      status = codes "open";
      severity = codes "error";
      event = codes "relay-health";
      reference_id = codes "PMR-1";
      first_observed = 1_000_000;
      observed = 1_000_000;
      occurrence_count = 1;
    };
    email_state = new_delivery;
    webhook_state = new_delivery;
  });
}

deaf_run :
    retries (deaf ∷ deaf_later ∷ []) (outage_file ∷ []) []
    ≡ record {
      stamp = 1000;
      content = some (record {
        payload = record {
          status = codes "open";
          severity = codes "error";
          event = codes "relay-health";
          reference_id = codes "PMR-1";
          first_observed = 1_000_000;
          observed = 1_000_000;
          occurrence_count = 1;
        };
        email_state = record { pending = true; attempts = 2; next_attempt = 100_000_000 };
        webhook_state = record { pending = true; attempts = 2; next_attempt = 100_000_000 };
      });
    }
      ∷ []
unfolding retry_outbox attempt_outbox attempt_channel deliver postponed backoff
deaf_run = refl

retry_outbox-delivers_example :
    let r = retry_outbox open_again (retries (deaf ∷ deaf_later ∷ []) (outage_file ∷ []) []) [] in
    (all is_unreadable r.files ≡ true) × (r.all_ok ≡ true)
retry_outbox-delivers_example =
    retry_outbox-delivers (deaf ∷ deaf_later ∷ []) open_again 3_640_000_000 (outage_file ∷ []) [] []
      refl (and_early (λ audit. omega arith) (and_early (λ audit. omega arith) none_left))
      (λ attempts. omega arith) (λ c payload attempts. refl)
