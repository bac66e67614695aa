-- ===== src/Writer/Delivered.antt =====
-- Sequences of calls on the spool of toinflux/writer.py.
use send_to_influx.Prelude.{
  ℕ, inl, inr, ◌≡◌, sym, ap, ◌∙◌, List, [], ◌∷◌, ◌++◌, append_assoc, append-nil,
}
use send_to_influx.Writer.Entry.{Record, Json, Entry}
use send_to_influx.Writer.Spool.{Spool}
use send_to_influx.Writer.Spool.Unsent.{entry, unsent}
use send_to_influx.Writer.Spool.Valid.{IsValid}
use send_to_influx.Writer.Delivery.{
  Call, write, fail, send, call, QueueStep, points_of, call-QueueStep,
}

-- The first list is the second without some of its entries.
pub data Within : List Entry → List Entry → Type 0 where
  ends : Within [] []
  keeps : {es fs : List Entry} → (e : Entry) → Within es fs → Within (e ∷ es) (e ∷ fs)
  skips : {es fs : List Entry} → (f : Entry) → Within es fs → Within es (f ∷ fs)

module _ (json : Json) where
  unfoldable pub run : List Call → Spool → Spool × List Entry
  unfolding call
  run [] s = (s, [])
  run (c ∷ cs) s =
      let (next, sent) = call json c s in let (after, later) = run cs next in (after, sent ++ later)

  -- The points of the writes, in their order, with those of the failing ones or without.
  pub data Recorded : List Call → List Record → Type 0 where
    no_calls : Recorded [] []
    wrote :
        {cs : List Call} {rs : List Record}
        → (r : Record) → Recorded cs rs
        → Recorded (write r ∷ cs) (r ∷ rs)
    kept :
        {cs : List Call} {rs : List Record}
        → (left : ℕ) (r : Record) → Recorded cs rs
        → Recorded (fail left r ∷ cs) (r ∷ rs)
    cut :
        {cs : List Call} {rs : List Record}
        → (left : ℕ) (r : Record) → Recorded cs rs
        → Recorded (fail left r ∷ cs) rs
    sending :
        {cs : List Call} {rs : List Record} → (n : ℕ) → Recorded cs rs → Recorded (send n ∷ cs) rs

  Within-append :
      (es fs gs hs : List Entry) → Within es fs → Within gs hs → Within (es ++ gs) (fs ++ hs)
  Within-append [] [] gs hs ends w = w
  Within-append (e ∷ es) (f ∷ fs) gs hs (keeps k v) w = keeps k (Within-append es fs gs hs v w)
  Within-append [] (f ∷ fs) gs hs (skips k v) w = skips k (Within-append [] fs gs hs v w)
  Within-append (e ∷ es) (f ∷ fs) gs hs (skips k v) w =
      skips k (Within-append (e ∷ es) fs gs hs v w)
  Within-append (e ∷ es) [] gs hs v w = elim v [ ]

  Within-self : (es : List Entry) → Within es es
  Within-self [] = ends
  Within-self (e ∷ es) = keeps e (Within-self es)

  Within-lost : (lost es fs : List Entry) → Within es fs → Within es (lost ++ fs)
  Within-lost [] es fs w = w
  Within-lost (l ∷ lost) es fs w = skips l (Within-lost lost es fs w)

  -- What a sequence of calls comes to.
  pub record Delivered (cs : List Call) (s after : Spool) (sent : List Entry) : Type 0 where
    pub valid : IsValid after
    pub added : List Entry
    pub points : Recorded cs (points_of json added)
    pub gone : List Entry
    pub same : unsent json s ++ added ≡ gone ++ unsent json after
    pub in_order : Within sent gone

  Delivered-next :
      (c : Call) (cs : List Call) (s next after : Spool) (sent later : List Entry)
      → QueueStep json c (unsent json s) sent (unsent json next)
      → Delivered cs next after later
      → Delivered (c ∷ cs) s after (sent ++ later)
  Delivered-next (write r) cs s next after sent later (nothing, n, position, lost, e) d = record {
    valid = d.valid;
    added = entry json n position r ∷ d.added;
    points = wrote r d.points;
    gone = lost ++ d.gone;
    same =
        sym (append_assoc (unsent json s) (entry json n position r ∷ []) d.added)
        ∙ ap (λ es. es ++ d.added) e
        ∙ append_assoc lost (unsent json next) d.added
        ∙ ap (λ es. lost ++ es) d.same
        ∙ sym (append_assoc lost d.gone (unsent json after));
    in_order = rw nothing (Within-lost lost later d.gone d.in_order);
  }
  Delivered-next (fail left r) cs s next after sent later (nothing, inl e) d = record {
    valid = d.valid;
    added = d.added;
    points = cut left r d.points;
    gone = d.gone;
    same = ap (λ es. es ++ d.added) (sym e) ∙ d.same;
    in_order = rw nothing d.in_order;
  }
  Delivered-next (fail left r) cs s next after sent later (nothing, inr (n, position, e)) d =
      record {
        valid = d.valid;
        added = entry json n position r ∷ d.added;
        points = kept left r d.points;
        gone = d.gone;
        same =
            sym (append_assoc (unsent json s) (entry json n position r ∷ []) d.added)
            ∙ ap (λ es. es ++ d.added) (sym e)
            ∙ d.same;
        in_order = rw nothing d.in_order;
      }
  Delivered-next (send n) cs s next after sent later (e, bound, drained) d = record {
    valid = d.valid;
    added = d.added;
    points = sending n d.points;
    gone = sent ++ d.gone;
    same =
        ap (λ es. es ++ d.added) e
        ∙ append_assoc sent (unsent json next) d.added
        ∙ ap (λ es. sent ++ es) d.same
        ∙ sym (append_assoc sent d.gone (unsent json after));
    in_order = Within-append sent sent later d.gone (Within-self sent) d.in_order;
  }

  -- Whatever writes, failing writes and sends come in whatever order to a valid spool, where segments can
  -- be created and read, it stays valid, and what was unsent, followed by the points written in their order
  -- with those of the failing writes or without, is what has gone, followed by what is unsent now; what was
  -- sent is what has gone without some of it, in the same order.
  pub run-Delivered :
      (cs : List Call) (s : Spool)
      → IsValid s
      → let (after, sent) = run cs s in Delivered cs s after sent
  unfolding run
  run-Delivered [] s v = record {
    valid = v;
    added = [];
    points = no_calls;
    gone = [];
    same = append-nil (unsent json s);
    in_order = ends;
  }
  run-Delivered (c ∷ cs) s v =
      let (valid, step) = call-QueueStep json c s v in
      Delivered-next c cs s _ _ _ _ step (run-Delivered cs (call json c s).0 valid)
