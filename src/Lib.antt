-- ===== src/Lib.antt =====
-- A model of the Python programs of the Microsoft 365 mail relay, with the theorems that make them
-- correct.
--
-- The relay submits mail to Microsoft 365 with an OAuth token that it mints from a certificate. The
-- programs under scripts/ keep that credential alive and report what goes wrong.
-- scripts/rotate-smtp-relay-cert.py replaces the certificate before it expires: it stages a new pair,
-- adds the new key to the app registration (authorised by the current key), waits until Graph lists it,
-- mints a token and sends a message with it, and only then swaps the files; the old key is removed after
-- a grace period. With --recover it deals with a live certificate that Entra no longer trusts: it stages a
-- standby that an operator uploads, and adopts it once it is proven. scripts/alert-event.py records
-- incidents and delivers their notifications by e-mail and webhook; scripts/refresh-smtp-token.py writes
-- the token file that Postfix reads; scripts/syslog-bridge.py copies system log messages to the log;
-- scripts/probe-smtp-xoauth2.py and scripts/qualify-relay.py are clients that try a submission. The
-- scripts run as single processes one after the other; they share the credential files, the state file
-- (cert-rotation-state.json) and the outbox, which are the state of the model.
--
-- Base: text as lists of code points, list and Boolean helpers, Python's integers.
--
-- Credential: the decisions of scripts/rotate-smtp-relay-cert.py that need no state.
--   Ascii, Base64, Thumbprint: credential_thumbprint, in every spelling that Graph uses.
--   Owner (Stamp, Verdict): rotation_display_name, instance_id_of, classify_credential and the
--   normalisation of MAIL_INSTANCE_ID.
--   Window: rotation_window_error. Failure: classify_token_failure and remove_key_already_gone.
--
-- Machine: the class Rotation as actions on a machine, which may raise (Exec). A machine is the eight
-- credential files, the state file and the history of all that was done, with every answer (Types). The
-- clock, cryptography, Entra, Graph, the SMTP submission and the helper scripts are the parameter
-- Services: functions of the history, of which nothing is assumed, so that a theorem holds for every
-- sequence of answers. Services says also which writes fail (DiskCall): of the log, of the state file, and of
-- a key or certificate file, which is then as it was or cut short. Files has write_file, os.replace, unlink and _load; Actions has token, proof, graph, log,
-- read_state, write_state and the rest. Triple, Keeps and Stores are the rules by which the proofs follow
-- an action through its returns and its exceptions.
--
-- Rotation: main of scripts/rotate-smtp-relay-cert.py. Removal is remove_key and --remove-key; Housekeeping
-- is what every run does first (an unfinished addition, a key whose grace period is over); Steps has
-- staging, addKey, abandon, the waits, the proof, the swap and the scheduling; Run puts them together.
-- Reset and Listing are --reset and --list-keys. Frame says which steps leave a property alone. Proven,
-- Confirmed, Accounted, Additions, Gate and Reset/Fresh have the theorems.
--
-- Recovery: run_recovery (Run) and the standby (Standby). Evidence and Guard have what must have been seen
-- before the live pair changes; Outcomes, Streak, Persistent and Healthy what single passes and sequences
-- of passes leave.
--
-- Alert: scripts/alert-event.py. Outbox is attempt_outbox and retry_outbox, Incident is main with its
-- commands, Entry the check of the event's name before them; Redact is redact, and Report has build_payload
-- and email_body, with the table in Guidance; Channels is deliver_email, over the conversation of Smtp, and
-- deliver_webhook. Json is atomic_json and read_json, call by call; the other files take a write as a whole.
-- Delivery, Kept, Lifecycle, Abstract, Backoff, Due, Eventually, Apart, Accepted, Published, Redact/Hidden
-- (over Redact/Bearer) and Report/Mentions have the theorems.
--
-- Environment: read_env, which two scripts have, and the test of the required settings; RoundTrip reads
-- back what is printed. Program: main of scripts/rotate-smtp-relay-cert.py from its command line to the
-- action that it selects, with --generate-only. Offline has what it does before any action, Coherent and
-- Reach the invariant of the credential files over any sequence of runs, Bounded the most that a run waits
-- and asks; Rotation/Frame (Run, Turn) and Recovery/Frame carry an invariant through a whole run from the
-- steps that may break it, and Machine/Costs, Rotation/Costs and Recovery/Costs count.
--
-- Smtp: Session is a conversation over smtplib with a server that is a function of the conversation so far,
-- with the session of send_proof_message; Initial reads the initial response of XOAUTH2; Probe is
-- scripts/probe-smtp-xoauth2.py and Qualify is scripts/qualify-relay.py. Talks has the rules by which Secure
-- and Verdict follow a conversation; Shown has what a success shows. In Machine the submission is the parameter submit of Services, of which
-- nothing is assumed, so that its theorems hold for this session too.
--
-- Syslog: lines_of of scripts/syslog-bridge.py (Lines), what its lines look like (Clean), and which it
-- leaves as they are (Whole); the loop of main over any datagrams (Bridge), and the log read back (Unforged).
--
-- Token: scripts/refresh-smtp-token.py. Refresh is write_token_file and main from its checks on, Mint the
-- assertion, the reading of the answer and the whole of main; Atomic has what becomes of the token file.
--
-- Tests: runs at concrete data, and each theorem at concrete data.
--
-- Loops: the waits of the script are loops with a fixed number of rounds, 12 reads after a removal, 24
-- reads after addKey, 20 tries of a token. They are recursion on the rounds that are left, called with
-- the script's numbers, so no bound is added and every action is total.
--
-- Not modelled: the text of log lines and of the proof and probe messages, the random jti of an assertion,
-- the bytes of keys and certificates (a key is a number that stands for it), file modes and owners, the case
-- mapping and white space of characters outside Latin-1, what is printed on a dry run, and crashes of the
-- rotation between two actions other than by an exception. os.replace of a credential file fails only where
-- the file is missing, and unlink does not fail. The eight credential files are distinct, so the key and the
-- certificate have different stems. A state file that is valid JSON has the fields that the script writes,
-- and RELAY_PORT is a number. The helper scripts are taken to be beside the
-- programs. Redaction is on ASCII text. The shell scripts, the container's files and the vendored SASL plugin
-- are outside of the model.
pub mod Base
pub mod Credential
pub mod Machine
pub mod Rotation
pub mod Recovery
pub mod Alert
pub mod Syslog
pub mod Token
pub mod Environment
pub mod Program
pub mod Smtp
mod Tests
