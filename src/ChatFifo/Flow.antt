-- ===== src/ChatFifo/Flow.antt =====
-- Between one side's sendMessage and the other's receiveMessage: what a side shows is, in order,
-- what has been sent to it.
use c_teaching.Prelude.{
  ℕ, ◌≡◌, refl, sym, ap, subst, ◌∙◌, take, drop, join, append_assoc, Bool, true, false, List, [],
  ◌∷◌, ◌++◌,
}
use c_teaching.Chat.Threads.{
  Receiver, ReceiverPc, receiving, ReceiverEvent, got, Sender, sending, SenderEvent, took,
}
use c_teaching.ChatFifo.Roles.{Role, accept_side, connect_side, other, put, put-both, put-across}
use c_teaching.ChatFifo.Moves.{
  NoZero, NoZero-append, NoZero-left, NoZero-right, NoZero-take, NoZero-drop, Shown, is_got,
  receive-Shown, got-Shown, send_quiet, send_takes,
}
use c_teaching.ChatFifo.{
  Fifo, System, init, received, sent, pass, set_bytes, set_name, Step, Reach, here, then_step,
  no_byte, no_write,
}

record Flow (rc : Receiver) (sd : Sender) (f : Fifo) : Type 0 where
  conserved : sd.sent ≡ f.passed ++ f.bytes
  sent_text : NoZero sd.sent
  msg_text : NoZero sd.msg
  shown : Shown rc.pc rc.buf rc.shown f.passed

-- For each role, of its receiver, the other's sender and the FIFO between them.
abbrev Inv : System → Type 0
Inv s = (r : Role) → Flow (s.receivers r) (s.senders (other r)) (s.fifos r)

init-Inv : Inv init
init-Inv r = record { conserved = refl; sent_text = tt; msg_text = tt; shown = refl }

rename-Inv :
    (s : System) (f : Role) (named : Bool)
    → Inv s
    → Inv (record s { fifos = put s.fifos f (set_name (s.fifos f) named) })
rename-Inv s f named h =
    put-both (λ r g _. Flow (s.receivers r) (s.senders (other r)) g) s.fifos s.fifos f
      (set_name (s.fifos f) named) (s.fifos f)
      (record {
        conserved = (h f).conserved;
        sent_text = (h f).sent_text;
        msg_text = (h f).msg_text;
        shown = (h f).shown;
      })
      h

read-Inv :
    (s : System) (r : Role) {x : ℕ} {rest : List ℕ}
    → (s.receivers r).pc ≡ receiving
    → (s.fifos r).bytes ≡ x ∷ rest
    → Inv s
    → Inv (record (received s r (got x)) { fifos = put s.fifos r (pass (s.fifos r) x rest) })
read-Inv s r {x} {rest} at eq h =
    put-both (λ q rc f. Flow rc (s.senders (other q)) f) s.receivers s.fifos r _ _
      (record {
        conserved = whole;
        sent_text = (h r).sent_text;
        msg_text = (h r).msg_text;
        shown = got-Shown (s.should_stop r) rc.pc rc.buf rc.shown x _ at text joined;
      })
      h
  where
    rc : Receiver
    rc = s.receivers r

    f : Fifo
    f = s.fifos r

    before : join rc.shown ++ rc.buf ≡ f.passed
    before = subst (λ pc. Shown pc rc.buf rc.shown f.passed) at (h r).shown

    joined : join rc.shown ++ (rc.buf ++ x ∷ []) ≡ f.passed ++ x ∷ []
    joined = sym (append_assoc (join rc.shown) rc.buf (x ∷ [])) ∙ ap (λ l. l ++ x ∷ []) before

    whole : (s.senders (other r)).sent ≡ (f.passed ++ x ∷ []) ++ rest
    whole = (h r).conserved ∙ ap (λ l. f.passed ++ l) eq ∙ sym (append_assoc f.passed (x ∷ []) rest)

    text : NoZero (rc.buf ++ x ∷ [])
    text =
        NoZero-right (join rc.shown) _
          (subst NoZero (sym joined) (NoZero-left _ rest (subst NoZero whole (h r).sent_text)))

quiet_receiver-Inv :
    (s : System) (r : Role) (e : ReceiverEvent) → is_got e ≡ false → Inv s → Inv (received s r e)
quiet_receiver-Inv s r e quiet h =
    put-both (λ q rc _. Flow rc (s.senders (other q)) (s.fifos q)) s.receivers s.fifos r _
      (s.fifos r)
      (record {
        conserved = (h r).conserved;
        sent_text = (h r).sent_text;
        msg_text = (h r).msg_text;
        shown =
            receive-Shown (s.should_stop r) (s.receivers r).pc (s.receivers r).buf
              (s.receivers r).shown (s.fifos r).passed e quiet (h r).shown;
      })
      h

-- What is known of a sender, by the role that reads from it.
at-Flow :
    (s : System) (r : Role) → Inv s → Flow (s.receivers (other r)) (s.senders r) (s.fifos (other r))
at-Flow s accept_side h = h connect_side
at-Flow s connect_side h = h accept_side

quiet_sender-Inv :
    (s : System) (r : Role) (e : SenderEvent) → no_write e ≡ true → Inv s → Inv (sent s r e)
quiet_sender-Inv s r e quiet h =
    let now = at-Flow s r h in
    let (same, msg) =
      send_quiet (s.should_stop r) (s.senders r).pc (s.senders r).msg (s.senders r).sent e quiet
        now.msg_text in
    put-across (λ q sd _. Flow (s.receivers q) sd (s.fifos q)) s.senders s.fifos r _
      (s.fifos (other r))
      (record {
        conserved = same ∙ now.conserved;
        sent_text = subst NoZero (sym same) now.sent_text;
        msg_text = msg;
        shown = now.shown;
      })
      h

write-Inv :
    (s : System) (r : Role) (n : ℕ) {k : ℕ}
    → (s.senders r).pc ≡ sending k
    → Inv s
    → let f = s.fifos (other r) in
      Inv (record (sent s r (took n)) {
        fifos = put s.fifos (other r) (set_bytes f (f.bytes ++ take n (drop k (s.senders r).msg)));
      })
write-Inv s r n {k} at h =
    let now = at-Flow s r h in
    let sd = s.senders r in
    let f = s.fifos (other r) in
    let more = take n (drop k sd.msg) in
    let (grown, same) = send_takes (s.should_stop r) sd.pc sd.msg sd.sent n at in
    put-across (λ q sd' f'. Flow (s.receivers q) sd' f') s.senders s.fifos r _ _
      (record {
        conserved = grown ∙ ap (λ l. l ++ more) now.conserved ∙ append_assoc f.passed f.bytes more;
        sent_text = subst NoZero (sym grown) (
            NoZero-append sd.sent more now.sent_text
              (NoZero-take n (drop k sd.msg) (NoZero-drop k sd.msg now.msg_text)));
        msg_text = subst NoZero (sym same) now.msg_text;
        shown = now.shown;
      })
      h

no_byte_got : (e : ReceiverEvent) → no_byte e ≡ true → is_got e ≡ false
no_byte_got (got x) h = sym h
no_byte_got ReceiverEvent.closed h = refl
no_byte_got ReceiverEvent.ready h = refl
no_byte_got ReceiverEvent.timeout h = refl
no_byte_got (ReceiverEvent.select_fails e) h = refl
no_byte_got (ReceiverEvent.recv_fails e) h = refl

step-Inv : {s t : System} → Step s t → Inv s → Inv t
step-Inv {s} (Step.make f at new) h = rename-Inv s f true h
step-Inv {s} (Step.read_byte r run at eq) h = read-Inv s r at eq h
step-Inv {s} (Step.read_end r run at eq end) h = quiet_receiver-Inv s r ReceiverEvent.closed refl h
step-Inv {s} (Step.receiver_moves r e run quiet) h =
    quiet_receiver-Inv s r e (no_byte_got e quiet) h
step-Inv {s} (Step.write_bytes r n run at fits reader) h = write-Inv s r n at h
step-Inv {s} (Step.sender_moves r e run quiet) h = quiet_sender-Inv s r e quiet h
step-Inv {s} (Step.unlink f at) h = rename-Inv s f false h
step-Inv step h = h

reach-Inv : {s : System} → Reach s → Inv s
reach-Inv here = init-Inv
reach-Inv (then_step run step) = step-Inv step (reach-Inv run)

-- What the receiver has still to show of the bytes sent: at select() those in the FIFO, and at
-- read() also those of its buffer.
abbrev pub Remains : ReceiverPc → List ℕ → List ℕ → List ℕ → Type 0
Remains ReceiverPc.selecting buf bytes rest = rest ≡ bytes
Remains receiving buf bytes rest = rest ≡ buf ++ bytes
Remains _ buf bytes rest = Unit {0}

with_bytes :
    (first rest passed bytes : List ℕ)
    → first ++ rest ≡ passed
    → first ++ (rest ++ bytes) ≡ passed ++ bytes
with_bytes first rest passed bytes h = sym (append_assoc first rest bytes) ∙ ap (λ l. l ++ bytes) h

Shown-Remains :
    (pc : ReceiverPc) (buf : List ℕ) (shown : List (List ℕ)) (passed bytes : List ℕ)
    → Shown pc buf shown passed
    → (rest : List ℕ) × (join shown ++ rest ≡ passed ++ bytes) × Remains pc buf bytes rest
Shown-Remains ReceiverPc.selecting buf shown passed bytes h = (bytes, ap (λ l. l ++ bytes) h, refl)
Shown-Remains receiving buf shown passed bytes h =
    (buf ++ bytes, with_bytes (join shown) buf passed bytes h, refl)
Shown-Remains ReceiverPc.ended buf shown passed bytes (rest, h) =
    (rest ++ bytes, with_bytes (join shown) rest passed bytes h, tt)
Shown-Remains ReceiverPc.exited buf shown passed bytes (rest, h) =
    (rest ++ bytes, with_bytes (join shown) rest passed bytes h, tt)
Shown-Remains ReceiverPc.overflow buf shown passed bytes (rest, h) =
    (rest ++ bytes, with_bytes (join shown) rest passed bytes h, tt)

-- In every reachable state the messages that a side of the chat shows, joined, are a prefix of the
-- bytes that the other side has sent; at select() what is left are the bytes in the FIFO, and at
-- read() those of the buffer and then those in the FIFO.
pub shown_prefix :
    {s : System}
    → Reach s
    → (r : Role)
    → let rc = s.receivers r in
      (rest : List ℕ) × (join rc.shown ++ rest ≡ (s.senders (other r)).sent)
      × Remains rc.pc rc.buf (s.fifos r).bytes rest
shown_prefix {s} run r =
    let flow = reach-Inv run r in
    let rc = s.receivers r in
    let f = s.fifos r in
    let (rest, eq, remains) = Shown-Remains rc.pc rc.buf rc.shown f.passed f.bytes flow.shown in
    (rest, eq ∙ sym flow.conserved, remains)
