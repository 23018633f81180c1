-- ===== src/Smtp/Qualify.antt =====
-- scripts/qualify-relay.py: one message through a relay under test, and the verdict on what became of it.
use postfix_m365_relay.Smtp.Session.{
  auth_error, recipients_refused, sender_refused, data_error, fault, sent, status, uncaught, Exit,
}
use postfix_m365_relay.Base.{
  ◌&&◌, ◌||◌, none, ◌==◌, [], if◌then◌else◌, some, false, true, ◌∷◌, not, Bool, Option, Text, ℕ,
}
use postfix_m365_relay.Smtp.Session.{
  data_error, sent, sender_refused, expecting, recipients_refused, start_tls, login, hello, submit,
  say, session, Talk, fault, Transcript, Ending, Server,
}
use postfix_m365_relay.Credential.Owner.{is_empty}
use postfix_m365_relay.Credential.Thumbprint.{or_empty}

pub data Expect : Type 0 where
  expect_accepted expect_rejected expect_auth_rejected : Expect

-- The command line. The file of --password-file is its text, and none where it is no regular file.
pub record QualifyArguments : Type 0 where
  pub host : Text
  pub port : ℕ
  pub sender : Text
  pub recipient : Text
  pub starttls : Bool
  pub username : Option Text
  pub password_file : Option (Option Text)
  pub expect : Expect

-- `bool(args.username)`: an empty name is none.
abbrev pub is_truthy : Option Text → Bool
is_truthy none = false
is_truthy (some name) = not (is_empty name)

abbrev pub is_present : {A : Type 0} → Option A → Bool
is_present none = false
is_present (some a) = true

abbrev pub differ : Bool → Bool → Bool
differ true b = not b
differ false b = b

abbrev pub is_regular : Option (Option Text) → Bool
is_regular none = true
is_regular (some none) = false
is_regular (some (some text)) = true

-- None of the three `parser.error`s.
unfoldable pub is_valid : QualifyArguments → Bool
is_valid args =
    not (differ (is_truthy args.username) (is_present args.password_file))
    && not (is_truthy args.username && not args.starttls)
    && is_regular args.password_file

-- `.rstrip("\r\n")`
unfoldable pub strip_ends : Text → Text
strip_ends [] = []
strip_ends (c ∷ s) = elim (strip_ends s) [
  | [] ↦ if c == 13 || c == 10 then [] else c ∷ []
  | d ∷ t ↦ c ∷ d ∷ t
]

abbrev pub text_of : Option (Option Text) → Text
text_of (some (some text)) = text
text_of _ = []

-- The verdict on the `try` statement and what follows it.
unfoldable pub verdict : Expect → Ending → Exit
verdict expect_auth_rejected (fault auth_error) = status 0
verdict expect_rejected (fault recipients_refused) = status 0
verdict expect_rejected (fault sender_refused) = status 0
verdict expect_rejected (fault data_error) = status 0
verdict expect_accepted sent = status 0
verdict _ (fault f) = uncaught
verdict _ _ = status 1

module _ (server : Server) where
  unfoldable pub logged_in : QualifyArguments → Transcript → Talk
  logged_in args log =
      let message = submit args.sender args.recipient in
      if is_truthy args.username
      then say server (login (or_empty args.username) (strip_ends (text_of args.password_file))) log
          (λ _ later. say server message later (λ _ last. (sent, last)))
      else say server message log (λ _ last. (sent, last))

  unfoldable pub qualify_body : QualifyArguments → Transcript → Talk
  unfolding logged_in
  qualify_body args log = say server hello log λ _ greeted.
      if args.starttls
      then say server start_tls greeted
          (expecting 220 λ secured. say server hello secured (λ _ again. logged_in args again))
      else logged_in args greeted

  -- `main`; a status of 2 is the parser's.
  unfoldable pub qualify : QualifyArguments → Transcript → Exit × Transcript
  unfolding qualify_body verdict
  qualify args log =
      if is_valid args
      then (let talk = session server args.host args.port (qualify_body args) log in
          (verdict args.expect talk.0, talk.1))
      else (status 2, log)
