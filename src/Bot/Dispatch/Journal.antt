-- ===== src/Bot/Dispatch/Journal.antt =====
-- bot/handler.go: what the audit log holds after the bot has handled messages.
use storage_bot.Base.{
  ℕ, ◌⊎◌, ◌≡◌, ◌≢◌, refl, sym, ap, ◌∙◌, inl, inr, true, false, not, ◌&&◌, List, [], ◌∷◌, ◌++◌,
  arith, Text, lit, cat, text_eq, text_eq_iff, if_intro, Option, none, some, min,
}
use storage_bot.Base.Int.{ℤ, pos}
use storage_bot.Base.Result.{Result, err, ok}
use storage_bot.Security.Audit.{AuditEntry, AuditLog, new_audit_log, recent}
use storage_bot.Security.Audit.History.{record_one, record_all, recent-record_all, keep_last}
use storage_bot.Security.Validator.{sanitize_for_llm}
use storage_bot.Intent.{type_text}
use storage_bot.Intent.Parse.{Action}
use storage_bot.Inspect.Level.{Level}
use storage_bot.Bot.Message.{extract_text, is_bot_mentioned, Card, card_for_action}
use storage_bot.Bot.Message.Note.{card_for_action-note}
use storage_bot.Bot.Dispatch.{
  Event, Bot, BotState, Outcome, ignored, panicked, replied, status_of, card_of_answer, logged,
  understood, dispatch, carried_out, in_chat, with_text, with_content, handle_message, serve,
}

module _ {W K F : Type 0} (bot : Bot W K F) where
  -- The messages that get no answer.
  pub data Quiet (ev : Event) : Outcome → Type 0 where
    no_content : ev.content ≡ none → Quiet ev ignored
    no_text :
        (body : Text)
        → ev.content ≡ some body
        → extract_text bot.text_field body ≡ []
        → Quiet ev ignored
    to_others :
        (body : Text)
        → ev.content ≡ some body
        → ev.chat_type ≡ some (lit "group")
        → is_bot_mentioned (extract_text bot.text_field body) ev.mentions ≡ false
        → Quiet ev ignored
    no_chat_type : ev.chat_type ≡ none → Quiet ev panicked

  -- The status of an entry, and the card of the answer.
  abbrev pub Reported : AuditEntry → Card → Type 0
  Reported e c =
      (e.status ≡ lit "ok") × (c.note ≡ [])
      ⊎ ((reason : Text) × (e.status ≡ lit "error: " ++ reason)
          × (c.body ≡ cat (lit "```\n" ∷ reason ∷ lit "\n```" ∷ [])))

  -- A message that gets an answer, and the entry that is made of it.
  pub record Answered (ev : Event) (st : BotState W K) (c : Card) (e : AuditEntry) : Type 0 where
    body : Text
    given : ev.content ≡ some body
    command : e.command ≡ extract_text bot.text_field body
    some_text : e.command ≢ []
    chat : Text
    in_a_chat : ev.chat_type ≡ some chat
    addressed : chat ≡ lit "group" → is_bot_mentioned e.command ev.mentions ≡ true
    user : e.user ≡ ev.user_id
    action : e.action ≡ type_text (understood bot (sanitize_for_llm e.command) st.core).0.type
    cluster_name :
        e.cluster_name ≡ (understood bot (sanitize_for_llm e.command) st.core).0.cluster_name
    reported : Reported e c

  -- Messages with their outcomes, and the entries of those that are answered.
  pub data Journal : List Event → BotState W K → List Outcome → List AuditEntry → Type 0 where
    over : (st : BotState W K) → Journal [] st [] []
    passed :
        (ev : Event) (evs : List Event) (st : BotState W K) (o : Outcome) (os : List Outcome)
        (es : List AuditEntry)
        → Quiet ev o
        → handle_message bot ev st ≡ (o, st)
        → Journal evs st os es
        → Journal (ev ∷ evs) st (o ∷ os) es
    answered :
        (ev : Event) (evs : List Event) (st : BotState W K) (c : Card) (e : AuditEntry)
        (os : List Outcome) (es : List AuditEntry)
        → Answered ev st c e
        → Journal evs (handle_message bot ev st).1 os es
        → Journal (ev ∷ evs) st (replied c ∷ os) (e ∷ es)

  -- One message.
  data Handled (ev : Event) (st : BotState W K) (r : Outcome × BotState W K) : Type 0 where
    passes : Quiet ev r.0 → r.1 ≡ st → Handled ev st r
    answers :
        (c : Card) (e : AuditEntry)
        → r.0 ≡ replied c
        → Answered ev st c e
        → ((log : AuditLog) → st.audit ≡ some log → r.1.audit ≡ some (record_one log e))
        → Handled ev st r

  card-Reported :
      (a : Action) (r : Result Text) (level : Level) (e : AuditEntry)
      → e.status ≡ status_of bot r
      → Reported e (card_of_answer bot a r level)
  unfolding card_of_answer status_of
  card-Reported a (err reason) level e h = inr (reason, h, unfold card_for_action in refl)
  card-Reported a (ok reply) level e h = inl (h, card_for_action-note _ reply level)

  carried_out-Handled :
      (ev : Event) (st : BotState W K) (body text chat : Text)
      → ev.content ≡ some body
      → extract_text bot.text_field body ≡ text
      → text ≢ []
      → ev.chat_type ≡ some chat
      → (chat ≡ lit "group" → is_bot_mentioned text ev.mentions ≡ true)
      → Handled ev st (carried_out bot ev text st)
  unfolding carried_out logged
  carried_out-Handled ev st body text chat given said full in_chat addressed =
      let (a, core1) = understood bot (sanitize_for_llm text) st.core in
      let ((r, level), core2) = dispatch bot a.type a core1 in
      let e : AuditEntry = record {
        timestamp = bot.clock core2.world;
        user = ev.user_id;
        cluster_name = a.cluster_name;
        action = type_text a.type;
        command = text;
        status = status_of bot r;
      } in
      answers (card_of_answer bot a r level) e refl
        (record {
          body = body;
          given = given;
          command = sym said;
          some_text = full;
          chat = chat;
          in_a_chat = in_chat;
          addressed = addressed;
          user = refl;
          action = refl;
          cluster_name = refl;
          reported = card-Reported a r level e refl;
        })
        (λ log h. rw h refl)

  in_chat-Handled :
      (ev : Event) (st : BotState W K) (body text : Text) (o : Option Text)
      → ev.content ≡ some body
      → extract_text bot.text_field body ≡ text
      → text ≢ []
      → ev.chat_type ≡ o
      → Handled ev st (in_chat bot ev text o st)
  unfolding in_chat
  in_chat-Handled ev st body text none given said full chat = passes (no_chat_type chat) refl
  in_chat-Handled ev st body text (some c) given said full chat =
      if_intro (Handled ev st) (text_eq c (lit "group") && not (is_bot_mentioned text ev.mentions))
        (ignored, st) (carried_out bot ev text st)
        (λ e.
          passes
            (to_others body given (chat ∙ ap some ((text_eq_iff c (lit "group")).0 (ground arith)))
              (ap (λ t. is_bot_mentioned t ev.mentions) said ∙ ground arith))
            refl)
        (λ e. carried_out-Handled ev st body text c given said full chat (λ g.
          let group : text_eq c (lit "group") ≡ true = (text_eq_iff c (lit "group")).1 g in
          ground arith))

  with_text-Handled :
      (ev : Event) (st : BotState W K) (body text : Text)
      → ev.content ≡ some body
      → extract_text bot.text_field body ≡ text
      → Handled ev st (with_text bot ev text st)
  unfolding with_text
  with_text-Handled ev st body [] given said = passes (no_text body given said) refl
  with_text-Handled ev st body (c ∷ s) given said =
      in_chat-Handled ev st body (c ∷ s) ev.chat_type given said (λ h. cc) refl

  with_content-Handled :
      (ev : Event) (st : BotState W K) (o : Option Text)
      → ev.content ≡ o
      → Handled ev st (with_content bot ev o st)
  unfolding with_content
  with_content-Handled ev st none h = passes (no_content h) refl
  with_content-Handled ev st (some body) h = with_text-Handled ev st body _ h refl

  handle_message-Handled :
      (ev : Event) (st : BotState W K) → Handled ev st (handle_message bot ev st)
  unfolding handle_message
  handle_message-Handled ev st = with_content-Handled ev st ev.content refl

  -- The log is that of the entries.
  serve-entries :
      (evs : List Event) (st : BotState W K) (log : AuditLog)
      → st.audit ≡ some log
      → (es : List AuditEntry) × Journal evs st (serve bot evs st).0 es
        × ((serve bot evs st).1.audit ≡ some (record_all log es))
  unfolding serve record_all
  serve-entries [] st log h = ([], over st, h)
  serve-entries (ev ∷ evs) st log h = elim (handle_message-Handled ev st) [
    | passes quiet same ↦
        let (es, journal, kept) = serve-entries evs st log h in
        let step : handle_message bot ev st ≡ ((handle_message bot ev st).0, st) =
          ap (λ t. ((handle_message bot ev st).0, t)) same in
        (es, rw same (passed ev evs st _ _ es quiet step journal), rw same kept)
    | answers c e reply entry grows ↦
        let (es, journal, kept) =
          serve-entries evs (handle_message bot ev st).1 (record_one log e) (grows log h) in
        (e ∷ es, rw reply (answered ev evs st c e _ es entry journal), kept)
  ]

  -- Of a bot that starts with a new audit log: after any messages, the log's last `n` entries are the
  -- last entries of a journal. In it, each message that is answered has one entry, in order, with its
  -- sender, its full text, the action and the cluster that the bot understood, and whether it failed. A
  -- message has none and changes nothing only if it has no text, is in a group and does not mention the
  -- bot, or has no chat type, where the handler panics.
  pub serve-Journal :
      (evs : List Event) (st : BotState W K) (size : ℤ) (n : ℕ)
      → st.audit ≡ some (new_audit_log size)
      → (es : List AuditEntry) × Journal evs st (serve bot evs st).0 es
        × (log : AuditLog) × ((serve bot evs st).1.audit ≡ some log)
        × (recent log (pos n) ≡ keep_last (min n (new_audit_log size).max_size) es)
  serve-Journal evs st size n h =
      let (es, journal, kept) = serve-entries evs st (new_audit_log size) h in
      (es, journal, record_all (new_audit_log size) es, kept, recent-record_all size es n)
