-- ===== src/Streaming/Relay/Frames.antt =====
-- The bytes that a client which takes every write has received when a relay ends.
use modelcairn.Base.{
  ℕ, ◌+◌, String, Bool, true, false, Option, none, some, List, [], ◌∷◌, ◌++◌, ◌≡◌, refl, sym, ap,
  ◌∙◌, arith, length, take, append-nil, append_assoc, length-append, All, if◌then◌else◌,
}
use mathlib.Core.Path.{subst, ap₂}
use modelcairn.Fault.{Error}
use modelcairn.Streaming.{Client, commit, zero_chat, write}
use modelcairn.Streaming.Lines.{Fragment}
use modelcairn.Streaming.Normalize.{Codec, Normalized}
use modelcairn.Streaming.Normalize.Alias.{IsAliased, normalize_chunk-IsAliased}
use modelcairn.Streaming.Relay.{
  Tick, Relay, Step, is_done, done_payload, frame_of, write_chat_frame, after_done, after_chunk,
  commit_relay, relay_chat_completions,
}
use modelcairn.Streaming.Relay.Rule.{After, Ends, event-After, relay-Ends}

-- The frames of chunks, in order.
abbrev pub frames : List (List ℕ) → List ℕ
frames [] = []
frames (p ∷ ps) = frame_of p ++ frames ps

frames-append : (ps qs : List (List ℕ)) → frames (ps ++ qs) ≡ frames ps ++ frames qs
frames-append [] qs = refl
frames-append (p ∷ ps) qs =
    ap (λ l. frame_of p ++ l) (frames-append ps qs)
    ∙ sym (append_assoc (frame_of p) (frames ps) (frames qs))

-- A writer that takes all of every write.
abbrev pub IsHonest : Client → Type 0
IsHonest c = (n : ℕ) (frame : List ℕ) → c.accept n frame ≡ (length frame, none)

pub take_all {ℓ} : {A : Type ℓ} (xs : List A) → take (length xs) xs ≡ xs
take_all [] = refl
take_all (x ∷ xs) = ap (λ l. x ∷ l) (take_all xs)

write_honest :
    (frame : List ℕ) (r : Relay)
    → IsHonest r.client
    → write_chat_frame frame r ≡ (
      none,
      record r {
        client = record (r.client) {
          writes = r.client.writes + 1;
          received = r.client.received ++ frame;
        };
        result = record (r.result) { bytes = r.result.bytes + length frame };
      },
    )
unfolding write_chat_frame write
write_honest frame r h = ground (arith, h r.client.writes frame, take_all frame)

is_done-eq : (payload : List ℕ) → is_done payload ≡ true → payload ≡ done_payload
unfolding is_done
is_done-eq (a ∷ b ∷ c ∷ d ∷ e ∷ f ∷ []) h = ground arith
is_done-eq _ h = cc

module _ (codec : Codec) (alias : String) (start : Client) where
  -- The received bytes are what was there, the frames of as many chunks as there were events, each with
  -- the requested alias for its model, and the final frame exactly if the relay is complete.
  pub record IsFramed (r : Relay) : Type 0 where
    pub chunks : List (List ℕ)
    pub received :
        r.client.received
        ≡ start.received
          ++ (frames chunks ++ (if r.result.completed then frame_of done_payload else []))
    pub counted : length chunks ≡ r.result.events
    pub aliased : All (IsAliased codec alias) chunks

  record IsFramedSoFar (r : Relay) : Type 0 where
    honest : IsHonest r.client
    incomplete : r.result.completed ≡ false
    chunks : List (List ℕ)
    received : r.client.received ≡ start.received ++ frames chunks
    counted : length chunks ≡ r.result.events
    aliased : All (IsAliased codec alias) chunks

  abbrev IsFramedEnd : Relay → Option Error → Type 0
  IsFramedEnd r err = IsFramed r

  abbrev Keeps : Step → Type 0
  Keeps s = After IsFramedSoFar IsFramedEnd s

  stop-IsFramed : (r : Relay) → IsFramedSoFar r → IsFramed r
  stop-IsFramed r h = record {
    chunks = h.chunks;
    received =
        h.received
        ∙ ap (λ l. start.received ++ l)
            (sym (append-nil (frames h.chunks))
              ∙ ap (λ (b : Bool). frames h.chunks ++ (if b then frame_of done_payload else []))
                  (sym h.incomplete));
    counted = h.counted;
    aliased = h.aliased;
  }

  commit-IsFramed : (now : ℕ) (r : Relay) → IsFramedSoFar r → IsFramedSoFar (commit_relay now r)
  commit-IsFramed now r h = go r.result.committed refl
    where
      go : (b : Bool) → r.result.committed ≡ b → IsFramedSoFar (commit_relay now r)
      go true e = unfold commit_relay in simp e h
      go false e =
          unfold commit_relay commit in
          simp e (record {
            honest = h.honest;
            incomplete = h.incomplete;
            chunks = h.chunks;
            received = h.received;
            counted = h.counted;
            aliased = h.aliased;
          })

  append-All :
      (P : List ℕ → Type 0) (ps : List (List ℕ)) (p : List ℕ)
      → All P ps
      → P p
      → All P (ps ++ p ∷ [])
  append-All P [] p h k = (k, tt)
  append-All P (q ∷ ps) p h k = (h.0, append-All P ps p h.1 k)

  frames_last :
      (a : List ℕ) (ps : List (List ℕ)) (p : List ℕ)
      → (a ++ frames ps) ++ frame_of p ≡ a ++ frames (ps ++ p ∷ [])
  frames_last a ps p =
      append_assoc a (frames ps) (frame_of p)
      ∙ ap (λ l. a ++ l)
          (ap (λ l. frames ps ++ l) (sym (append-nil (frame_of p)))
            ∙ sym (frames-append ps (p ∷ [])))

  chunk-IsFramed :
      (n : Normalized) (r : Relay)
      → IsAliased codec alias n.payload
      → IsFramedSoFar r
      → Keeps (after_chunk n (write_chat_frame (frame_of n.payload) r))
  chunk-IsFramed n r a h = rw (write_honest (frame_of n.payload) r h.honest) (
      unfold after_chunk in
      record {
        honest = h.honest;
        incomplete = h.incomplete;
        chunks = h.chunks ++ n.payload ∷ [];
        received =
            ap (λ l. l ++ frame_of n.payload) h.received
            ∙ frames_last start.received h.chunks n.payload;
        counted = omega (arith, length-append h.chunks (n.payload ∷ []), h.counted);
        aliased = append-All _ h.chunks n.payload h.aliased a;
      })

  done-IsFramed :
      (payload : List ℕ) (r : Relay)
      → payload ≡ done_payload
      → IsFramedSoFar r
      → Keeps (after_done (write_chat_frame (frame_of payload) r))
  done-IsFramed payload r e h = rw (write_honest (frame_of payload) r h.honest) (
      unfold after_done in
      record {
        chunks = h.chunks;
        received =
            ap₂ (λ l m. l ++ frame_of m) h.received e
            ∙ append_assoc start.received (frames h.chunks) (frame_of done_payload);
        counted = h.counted;
        aliased = h.aliased;
      })

  source-IsFramed :
      (rest : List Fragment) (r : Relay)
      → IsFramedSoFar r
      → IsFramedSoFar (record r { source = rest })
  source-IsFramed rest r h = record {
    honest = h.honest;
    incomplete = h.incomplete;
    chunks = h.chunks;
    received = h.received;
    counted = h.counted;
    aliased = h.aliased;
  }

  start-IsFramed :
      (source : List Fragment)
      → IsHonest start
      → IsFramedSoFar (record { result = zero_chat; client = start; source = source })
  start-IsFramed source honest = record {
    honest = honest;
    incomplete = refl;
    chunks = [];
    received = sym (append-nil start.received);
    counted = refl;
    aliased = tt;
  }

-- A client that takes every write has received, when the relay ends, one frame for each event, each the
-- text of an object whose model is the requested alias, and then the final frame exactly if the
-- relay reports completion.
pub relay-IsFramed :
    (codec : Codec) (alias : String) (start : Client) (finish : Error) (ticks : ℕ → Tick)
    (source : List Fragment) (r : Relay) (err : Option Error)
    → IsHonest start
    → relay_chat_completions codec alias finish ticks source start ≡ some (r, err)
    → IsFramed codec alias start r
relay-IsFramed codec alias start finish ticks source r err honest h =
    subst (Ends (IsFramedSoFar codec alias start) (IsFramedEnd codec alias start)) h (
      relay-Ends (IsFramedSoFar codec alias start) (IsFramedEnd codec alias start) codec alias
        finish (λ r' e k. stop-IsFramed codec alias start r' k) (source-IsFramed codec alias start)
        (event-After (IsFramedSoFar codec alias start) (IsFramedEnd codec alias start) codec alias
          (λ r' e k. stop-IsFramed codec alias start r' k)
          (λ payload r' d c k. done-IsFramed codec alias start payload r' (is_done-eq payload d) k)
          (λ now payload n r' e k.
            chunk-IsFramed codec alias start n _ (normalize_chunk-IsAliased codec payload alias n e)
              (commit-IsFramed codec alias start now r' k)))
        ticks source start (start-IsFramed codec alias start source honest))
