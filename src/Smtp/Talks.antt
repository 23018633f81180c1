-- ===== src/Smtp/Talks.antt =====
-- What holds before and after a part of a conversation, whatever the server answers.
use postfix_m365_relay.Base.{Text, if◌then◌else◌, false, true, ◌==◌, ◌≡◌, Bool, refl, ℕ}
use postfix_m365_relay.Smtp.Session.{
  connect, session, expecting, after_quit, on_reply, SmtpFault, with_step, SmtpCall, Reply, say,
  Talk, closed, Ending, Server, Transcript, answered, failed, fault, smtp_error, quit,
}

-- From a transcript with `P` the conversation goes on to one with `Q`.
pub record From (P : Transcript → Type 0) (f : Transcript → Talk) (Q : Transcript → Type 0)
    : Type 0 where
  pub run : (log : Transcript) → P log → Q (f log).1

module _ (server : Server) {P : Transcript → Type 0} {Q : Transcript → Type 0} where
  pub From-say :
      {R : ℕ → Transcript → Type 0} (call : SmtpCall) {next : ℕ → Transcript → Talk}
      → ((f : SmtpFault) (log : Transcript) → P log → Q (with_step call (failed f) log))
      → ((code : ℕ) (log : Transcript) → P log → R code (with_step call (answered code) log))
      → ((code : ℕ) → From (R code) (next code) Q)
      → From P (λ log. say server call log next) Q
  unfolding say
  From-say call {next} lost told going = record { run = λ log h. by_reply log h (server call log) }
    where
      by_reply : (log : Transcript) → P log → (r : Reply) → Q (on_reply call log next r).1
      by_reply log h (answered code) = (going code).run _ (told code log h)
      by_reply log h (failed f) = lost f log h

  pub From-expecting :
      (wanted code : ℕ) {next : Transcript → Talk}
      → ((log : Transcript) → P log → Q log)
      → ((code == wanted) ≡ true → From P next Q)
      → From P (λ log. expecting wanted next code log) Q
  From-expecting wanted code {next} refused going = record {
    run = λ log h. by_code (code == wanted) going log h;
  }
    where
      by_code :
          (b : Bool)
          → (b ≡ true → From P next Q)
          → (log : Transcript) → P log
          → let r : Talk = (if b then next log else (fault smtp_error, log)) in Q r.1
      by_code true going log h = (going refl).run log h
      by_code false going log h = refused log h

  pub From-closed :
      {f : Transcript → Talk}
      → From P f Q
      → ((r : Reply) (log : Transcript) → Q log → Q (with_step quit r log))
      → From P (λ log. closed server (f log)) Q
  unfolding closed
  From-closed {f} t quitting = record { run = λ log h. by_talk (f log) (t.run log h) }
    where
      by_reply :
          (ending : Ending) (later : Transcript) (r : Reply)
          → Q later
          → Q (after_quit ending later r).1
      by_reply ending later (answered code) h = quitting (answered code) later h
      by_reply ending later (failed f) h = quitting (failed f) later h

      by_talk : (talk : Talk) → Q talk.1 → Q (closed server talk).1
      by_talk (ending, later) h = by_reply ending later (server quit later) h

  pub From-if :
      (b : Bool) {f g : Transcript → Talk}
      → (b ≡ true → From P f Q)
      → (b ≡ false → From P g Q)
      → From P (λ log. if b then f log else g log) Q
  From-if true t e = t refl
  From-if false t e = e refl

  pub From-end :
      (ending : Ending) → ((log : Transcript) → P log → Q log) → From P (λ log. (ending, log)) Q
  From-end ending h = record { run = h }

module _ (server : Server) {P : Transcript → Type 0} where
  -- A session keeps what its body, its connection and its QUIT keep.
  pub From-session :
      (host : Text) (port : ℕ) (body : Transcript → Talk)
      → ((r : Reply) (log : Transcript) → P log → P (with_step (connect host port) r log))
      → ((r : Reply) (log : Transcript) → P log → P (with_step quit r log))
      → From P body P
      → From P (session server host port body) P
  unfolding session
  From-session host port body opened quitting t =
      From-say server {R = λ code log. P log} (connect host port) (λ f. opened (failed f))
        (λ code. opened (answered code))
        λ code. From-expecting server 220 code (λ log h. h) λ e. From-closed server t quitting
