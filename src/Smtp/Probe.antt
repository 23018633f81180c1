-- ===== src/Smtp/Probe.antt =====
-- scripts/probe-smtp-xoauth2.py: one message for each of two display names.
use postfix_m365_relay.Base.{
  false, [], zero, true, none, inr, ◌∷◌, suc, if◌then◌else◌, codes, Bool, List, inl, some, ◌⊎◌,
  Option, Text, ℕ,
}
use postfix_m365_relay.Smtp.Session.{
  uncaught, status, Exit, other_fault, sent, submit, xoauth2_token, fault, not_authorised,
  xoauth2_body, session, Transcript, Ending, Server,
}

-- The command line; the files are none where they cannot be read.
pub record ProbeArguments : Type 0 where
  pub mailbox : Text
  pub sender : Text
  pub recipient : Text
  pub dry_run : Bool
  pub key_file : Option Text
  pub cert_file : Option Text

-- What the token endpoint answers: the `access_token` of its payload, an HTTPError, or another failure.
pub data TokenAnswer : Type 0 where
  granted : Option Text → TokenAnswer
  http_refused unreachable : TokenAnswer

-- `access_token`: the token, or the SystemExit or the exception that ends the run.
unfoldable pub access_token : TokenAnswer → Exit ⊎ Text
access_token (granted none) = inl (status 1)
access_token (granted (some [])) = inl (status 1)
access_token (granted (some token)) = inr token
access_token http_refused = inl (status 1)
access_token unreachable = inl uncaught

abbrev pub smtp_host : Text
smtp_host = codes "smtp.office365.com"

-- `except smtplib.SMTPException`: whether the message was sent, or none for any other exception.
abbrev pub caught : Ending → Option Bool
caught sent = some true
caught (not_authorised code) = some false
caught (fault other_fault) = none
caught (fault _) = some false

module _ (server : Server) where
  unfoldable pub send_one : Text → Text → Text → Text → Transcript → Option Bool × Transcript
  send_one mailbox token sender recipient log =
      let talk =
        session server smtp_host 587
          (xoauth2_body server (xoauth2_token mailbox token) (submit sender recipient)) log in
      (caught talk.0, talk.1)

  abbrev pub count_sent : Bool → ℕ → ℕ
  count_sent true total = suc total
  count_sent false total = total

  abbrev pub next_name :
      Option Bool × Transcript
      → ℕ
      → (ℕ → Transcript → Option ℕ × Transcript)
      → Option ℕ × Transcript
  next_name (none, log) total rest = (none, log)
  next_name (some ok, log) total rest = rest (count_sent ok total) log

  -- The loop over the names, with the number of messages sent; none is an exception.
  unfoldable pub send_all :
      Text → Text → Text → Text → List Text → ℕ → Transcript → Option ℕ × Transcript
  unfolding send_one
  send_all mailbox token sender recipient [] total log = (some total, log)
  send_all mailbox token sender recipient (name ∷ names) total log =
      next_name (send_one mailbox token sender recipient log) total
        (λ more later. send_all mailbox token sender recipient names more later)

  abbrev pub names : List Text
  names = codes "Backups [Example]" ∷ codes "your monitoring system Example" ∷ []

  abbrev pub total_exit : Option ℕ → Exit
  total_exit none = uncaught
  total_exit (some zero) = status 1
  total_exit (some (suc n)) = status 0

  unfoldable pub with_token : ProbeArguments → Exit ⊎ Text → Transcript → Exit × Transcript
  with_token args (inl e) log = (e, log)
  with_token args (inr token) log =
      let all = send_all args.mailbox token args.sender args.recipient names 0 log in
      (total_exit all.0, all.1)

  unfoldable pub with_files :
      ProbeArguments → TokenAnswer → Option Text → Option Text → Transcript → Exit × Transcript
  unfolding with_token
  with_files args answer (some key) (some cert) log = with_token args (access_token answer) log
  with_files args answer _ _ log = (uncaught, log)

  unfoldable pub probe : ProbeArguments → TokenAnswer → Transcript → Exit × Transcript
  unfolding with_files
  probe args answer log =
      if args.dry_run
      then (status 0, log)
      else with_files args answer args.key_file args.cert_file log
