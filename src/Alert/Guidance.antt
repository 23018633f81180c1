-- ===== src/Alert/Guidance.antt =====
-- GUIDANCE and GENERIC_GUIDANCE of scripts/alert-event.py, and what is looked up in them.
use postfix_m365_relay.Base.{same, [], if◌then◌else◌, ◌∷◌, List, Text, codes}

pub record Guidance : Type 0 where
  pub causes : List Text
  pub remedies : List Text

-- The table GUIDANCE, and GENERIC_GUIDANCE.
abbrev guidance_table : List (Text × Guidance)
guidance_table =
    (
      codes "token-health",
      record {
        causes =
            codes "Entra or network connectivity is unavailable."
            ∷ codes "The tenant, application ID, certificate, or Exchange scope is incorrect."
            ∷ codes "A newly added application credential has not propagated yet."
            ∷ [];
        remedies =
            codes "Check relay logs for the safe Microsoft error code and correlation IDs."
            ∷ codes "Confirm the app certificate is current and authorized for the relay mailbox."
            ∷ codes "Leave the persistent spool mounted; queued mail will retry after recovery."
            ∷ [];
      },
    )
    ∷ (
      codes "relay-health",
      record {
        causes =
            codes "Postfix is stopped, starting, or unable to create its SMTP listener."
            ∷ codes "A generated configuration, filesystem, or port conflict blocked startup."
            ∷ [];
        remedies =
            codes "Inspect container health and recent relay logs."
            ∷ codes "Validate the persistent config, mounted secrets, and writable spool volume."
            ∷ [];
      },
    )
    ∷ (
      codes "oauth-certificate-health",
      record {
        causes =
            codes "The OAuth application certificate is missing, expired, or unreadable."
            ∷ codes "Graph credential rotation or Microsoft propagation did not complete."
            ∷ [];
        remedies =
            codes "Inspect the certificate-rotation audit log and list application keys."
            ∷ codes
                "Do not delete an old credential until the new certificate mints a token and sends proof mail."
            ∷ [];
      },
    )
    ∷ (
      codes "oauth-rotation-health",
      record {
        causes =
            codes
              "Graph addKey/removeKey, propagation, proof delivery, or local atomic swap failed."
            ∷ codes "The application certificate files or persistent state are unavailable."
            ∷ [];
        remedies =
            codes "Inspect the rotation audit log and durable pending-key state."
            ∷ codes
                "Keep the old credential active until a retry proves the replacement end to end."
            ∷ [];
      },
    )
    ∷ (
      codes "inbound-tls-health",
      record {
        causes =
            codes "The device-facing STARTTLS key or certificate is missing or mismatched."
            ∷ codes "Managed certificate generation, validation, swap, or Postfix reload failed."
            ∷ [];
        remedies =
            codes
              "Inspect the inbound-tls state directory and confirm the key/certificate pair matches."
            ∷ codes "Restore the prior certificate if clients cannot negotiate STARTTLS."
            ∷ [];
      },
    )
    ∷ (
      codes "inbound-tls-expiring",
      record {
        causes =
            codes "A user-supplied STARTTLS certificate entered its configured renewal window."
            ∷ [];
        remedies =
            codes
              "Renew the mounted certificate with its external ACME or certificate-management process."
            ∷ codes
                "Recreate or signal the container, then verify the certificate served over STARTTLS."
            ∷ [];
      },
    )
    ∷ (
      codes "ca-bundle-age",
      record {
        causes =
            codes
              "The running image's distro packages, including the public root-CA bundle, were refreshed longer ago than MAIL_CA_BUNDLE_MAX_AGE_DAYS: the container has not been moved to a newly built image."
            ∷ [];
        remedies =
            codes
              "Pull the current image (rebuilt weekly from the latest release) and recreate the container after normal testing."
            ∷ codes "If the published image is itself old, check the scheduled publish workflow."
            ∷ codes "Do not update CA files manually inside the disposable container layer."
            ∷ [];
      },
    )
    ∷ (
      codes "queue-depth-health",
      record {
        causes =
            codes "Upstream delivery has failed long enough for the deferred queue to grow." ∷ [];
        remedies =
            codes "Inspect postqueue output and safe Postfix delivery diagnostics."
            ∷ codes "Correct the upstream cause; do not delete the persistent spool."
            ∷ [];
      },
    )
    ∷ (
      codes "sasl-auth-health",
      record {
        causes =
            codes
              "A device has repeatedly supplied a wrong username/password or an obsolete configuration."
            ∷ [];
        remedies =
            codes
              "Identify the source IP in local logs and correct or revoke that device credential."
            ∷ codes "Confirm AUTH is attempted only after STARTTLS."
            ∷ [];
      },
    )
    ∷ (
      codes "alias-health",
      record {
        causes =
            codes
              "An allowlisted passthrough address is not accepted by Microsoft 365 as a mailbox alias."
            ∷ [];
        remedies =
            codes "Confirm the address is an actual alias of the scoped relay mailbox."
            ∷ codes "Use collapse mode until SMTP XOAUTH2 app-only alias submission is proven."
            ∷ [];
      },
    )
    ∷ (
      codes "push-monitor-health",
      record {
        causes =
            codes
              "The configured external push-monitor endpoint is unavailable or rejected the request."
            ∷ codes "Its per-category token, URL, DNS, TLS trust, or firewall route changed."
            ∷ [];
        remedies =
            codes
              "Check the independent monitor service and network path without printing its secret token."
            ∷ codes "Keep email and the incident webhook configured as separate notification paths."
            ∷ [];
      },
    )
    ∷ []

abbrev generic_guidance : Guidance
generic_guidance = record {
  causes = codes "The affected component reported the evidence shown below." ∷ [];
  remedies = codes "Inspect the referenced component logs and follow the relay runbook." ∷ [];
}

abbrev look_up : Text → List (Text × Guidance) → Guidance
look_up event [] = generic_guidance
look_up event ((name, entry) ∷ entries) = if same name event then entry else look_up event entries

-- `GUIDANCE.get(incident["event"], GENERIC_GUIDANCE)`
unfoldable pub guidance : Text → Guidance
guidance event = look_up event guidance_table
