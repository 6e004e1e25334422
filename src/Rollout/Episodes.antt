-- ===== src/Rollout/Episodes.antt =====
-- What `EpisodeBuffer.ingest` (trainer/sac/episode_buffer.py) returns and keeps.
use verl_vla.Common.{
  suc, ◌≡◌, refl, sym, ap, ◌∙◌, Bool, true, false, ◌&&◌, not, List, [], ◌∷◌, ◌++◌, Option, none,
  some, length, ltb, any, Result, ok, err, All, All-append, Bool-cases, inl, inr, arith, ◌>>=◌,
  if◌then◌else◌, flat, ℕ,
}
use mathlib.Core.List.{append_assoc, append-nil}
use verl_vla.Rollout.Buffer.{
  Step, is_done, BufferError, lane_out_of_range, unfinished_lanes, EpisodeBuffer, ingest_lane,
  ingest_lanes, buffers_of, is_unfinished, check_unfinished, ingest,
}

module _ {D : Type 0} where
  abbrev pub IsRunning : Step D → Type 0
  IsRunning s = is_done s ≡ false

  abbrev pub AreRunning : List (List (Step D)) → Type 0
  AreRunning buffers = All (All IsRunning) buffers

  -- Some steps, of which the last one and no other is done.
  pub record IsSegment (steps : List (Step D)) : Type 0 where
    pub before : List (Step D)
    pub last : Step D
    pub split : steps ≡ before ++ last ∷ []
    pub running : All IsRunning before
    pub done : is_done last ≡ true

  -- The segments of more than one step, in their order.
  abbrev pub long_segments : List (List (Step D)) → List (List (Step D))
  long_segments [] = []
  long_segments (x ∷ xs) = if ltb 1 (length x) then x ∷ long_segments xs else long_segments xs

  -- The buffered steps and the new ones of a lane are segments, and then the running steps that are kept; the
  -- episodes are the segments of more than one step.
  pub record IsCut (buffer steps kept : List (Step D)) (episodes : List (List (Step D)))
      : Type 0 where
    pub segments : List (List (Step D))
    pub whole : buffer ++ steps ≡ flat segments ++ kept
    pub complete : All IsSegment segments
    pub running : All IsRunning kept
    pub long : episodes ≡ long_segments segments

  ingest_lane-IsCut :
      (buffer steps : List (Step D))
      → All IsRunning buffer
      → IsCut buffer steps (ingest_lane buffer steps).0 (ingest_lane buffer steps).1
  unfolding ingest_lane
  ingest_lane-IsCut buffer [] h = record {
    segments = [];
    whole = append-nil buffer;
    complete = tt;
    running = h;
    long = refl;
  }
  ingest_lane-IsCut buffer (s ∷ steps) h = elim (Bool-cases (is_done s)) [
    | inr running ↦
        let rest =
          ingest_lane-IsCut (buffer ++ s ∷ []) steps
            (All-append IsRunning buffer (s ∷ []) h (running, tt)) in
        rw running (record {
          segments = rest.segments;
          whole = sym (append_assoc buffer (s ∷ []) steps) ∙ rest.whole;
          complete = rest.complete;
          running = rest.running;
          long = rest.long;
        })
    | inl done ↦
        let rest = ingest_lane-IsCut [] steps tt in
        let closed : IsSegment (buffer ++ s ∷ []) = record {
          before = buffer;
          last = s;
          split = refl;
          running = h;
          done = done;
        } in
        let joined : buffer ++ s ∷ steps
            ≡ flat ((buffer ++ s ∷ []) ∷ rest.segments) ++ (ingest_lane [] steps).0 =
          sym (append_assoc buffer (s ∷ []) steps)
          ∙ ap (λ x. (buffer ++ s ∷ []) ++ x) rest.whole
          ∙ sym (append_assoc (buffer ++ s ∷ []) (flat rest.segments) (ingest_lane [] steps).0) in
        rw done (elim (Bool-cases (ltb 1 (length (buffer ++ s ∷ [])))) [
          | inl long ↦ rw long (record {
            segments = (buffer ++ s ∷ []) ∷ rest.segments;
            whole = joined;
            complete = (closed, rest.complete);
            running = rest.running;
            long = rw long (ap (λ x. (buffer ++ s ∷ []) ∷ x) rest.long);
          })
          | inr short ↦ rw short (record {
            segments = (buffer ++ s ∷ []) ∷ rest.segments;
            whole = joined;
            complete = (closed, rest.complete);
            running = rest.running;
            long = rw short rest.long;
          })
        ])
  ]

  -- Every lane that has a buffer is cut, the episodes are those of the lanes in their order, and a buffer
  -- without new steps is kept as it is.
  abbrev pub LanesCut :
      List (List (Step D))
      → List (List (Step D))
      → List (List (Step D))
      → List (List (Step D))
      → Type 0
  LanesCut (buffer ∷ buffers) (steps ∷ rollout) (kept ∷ more) episodes =
      (here : List (List (Step D))) × (rest : List (List (Step D))) × (episodes ≡ here ++ rest)
      × IsCut buffer steps kept here
      × LanesCut buffers rollout more rest
  LanesCut (buffer ∷ buffers) (steps ∷ rollout) [] episodes = ⊥
  LanesCut [] rollout kept episodes = (kept ≡ []) × (episodes ≡ [])
  LanesCut (buffer ∷ buffers) [] kept episodes = (kept ≡ buffer ∷ buffers) × (episodes ≡ [])

  abbrev answer_of : Bool → List (List (Step D)) → Result BufferError (List (List (Step D)))
  answer_of missing episodes = if missing then err lane_out_of_range else ok episodes

  ingest_lanes-LanesCut :
      (buffers rollout : List (List (Step D)))
      → AreRunning buffers
      → AreRunning (ingest_lanes buffers rollout).1
        × (episodes : List (List (Step D))) × LanesCut buffers rollout
            (ingest_lanes buffers rollout).1
            episodes
        × ((ingest_lanes buffers rollout).0
            ≡ answer_of (ltb (length buffers) (length rollout)) episodes)
  unfolding ingest_lanes
  ingest_lanes-LanesCut [] [] h = (tt, [], (refl, refl), refl)
  ingest_lanes-LanesCut (buffer ∷ buffers) [] h = (h, [], (refl, refl), ground arith)
  ingest_lanes-LanesCut [] (steps ∷ rollout) h = (tt, [], (refl, refl), ground arith)
  ingest_lanes-LanesCut (buffer ∷ buffers) (steps ∷ rollout) h =
      let here = ingest_lane buffer steps in
      let cut = ingest_lane-IsCut buffer steps h.0 in
      let (running, rest, cuts, same) = ingest_lanes-LanesCut buffers rollout h.1 in
      (
        (cut.running, running),
        here.1 ++ rest,
        (here.1, rest, refl, cut, cuts),
        ap (λ r. r >>= λ episodes. ok (here.1 ++ episodes)) same
            ∙ answered here.1 rest (length buffers) (length rollout),
      )
    where
      answered :
          (here rest : List (List (Step D))) (m n : ℕ)
          → (answer_of (ltb m n) rest >>= λ episodes. ok (here ++ episodes))
            ≡ answer_of (ltb (suc m) (suc n)) (here ++ rest)
      answered here rest m n = ground arith

  -- The buffers of an `EpisodeBuffer` hold no done step.
  abbrev pub IsBuffer : Option (List (List (Step D))) → Type 0
  IsBuffer none = Unit
  IsBuffer (some buffers) = AreRunning buffers

  buffers_of-AreRunning :
      (lanes : Option (List (List (Step D)))) (rollout : List (List (Step D)))
      → IsBuffer lanes
      → AreRunning (buffers_of lanes rollout)
  buffers_of-AreRunning (some buffers) rollout h = h
  buffers_of-AreRunning none [] h = tt
  buffers_of-AreRunning none (steps ∷ rollout) h = (tt, buffers_of-AreRunning none rollout tt)

  -- What `ingest` does to the buffers that it finds, and what it answers.
  abbrev pub Ingests :
      Bool
      → List (List (Step D))
      → List (List (Step D))
      → Result BufferError (List (List (Step D))) × EpisodeBuffer D
      → Type 0
  Ingests auto_reset buffers rollout (r, b) =
      (kept : List (List (Step D))) × (episodes : List (List (Step D))) × (b.lanes ≡ some kept)
      × AreRunning kept
      × LanesCut buffers rollout kept episodes
      × (r ≡ (
          if ltb (length buffers) (length rollout)
          then err lane_out_of_range
          else if not auto_reset && any is_unfinished kept
          then err unfinished_lanes
          else ok episodes))

  -- If the buffers hold no done step, `ingest` cuts every lane that has a buffer, that is the steps in its
  -- buffer and then the new ones, after each done step: the episodes are the pieces of more than one
  -- step, lane by lane and in their order, and the buffer keeps the steps after the last done one. It
  -- raises, with the buffers changed so, when the rollout has more lanes than there are buffers, and, without
  -- auto reset, when a buffer is not empty; otherwise it returns the episodes.
  pub ingest-Ingests :
      (b : EpisodeBuffer D) (rollout : List (List (Step D)))
      → IsBuffer b.lanes
      → Ingests b.auto_reset (buffers_of b.lanes rollout) rollout (ingest b rollout)
  unfolding ingest
  ingest-Ingests b rollout h =
      let buffers = buffers_of b.lanes rollout in
      let (running, episodes, cuts, same) =
        ingest_lanes-LanesCut buffers rollout (buffers_of-AreRunning b.lanes rollout h) in
      let kept = (ingest_lanes buffers rollout).1 in
      (
        kept,
        episodes,
        refl,
        running,
        cuts,
        ap (λ r. r >>= check_unfinished b.auto_reset kept) same
            ∙ checked b.auto_reset kept (ltb (length buffers) (length rollout)) episodes,
      )
    where
      checked :
          (auto_reset : Bool) (kept : List (List (Step D))) (missing : Bool)
          (episodes : List (List (Step D)))
          → (answer_of missing episodes >>= check_unfinished auto_reset kept) ≡ (
              if missing
              then err lane_out_of_range
              else if not auto_reset && any is_unfinished kept
              then err unfinished_lanes
              else ok episodes)
      checked auto_reset kept missing episodes = ground arith
