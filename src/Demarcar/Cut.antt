-- ===== src/Demarcar/Cut.antt =====
-- A stream of frames cut at any place.
use tcpserver_lib.Base.{
  ℕ, ◌≤◌, ◌≡◌, refl, sym, ap, ap₂, ◌∙◌, inl, inr, List, [], ◌∷◌, ◌++◌, arith, length, take, drop,
  concat, All, append_assoc, take-append-drop, append-split, length-take,
}
use native.Mathlib.Decide.{dec_le}
use tcpserver_lib.Demarcar.{Message, uint16_at}
use tcpserver_lib.Demarcar.Variable.{IsFrame, IsIncomplete, uint16_at-append}

-- A front part of a sequence of frames: some whole frames, and a piece of the next.
pub record Cut (frames : List Message) (front back : List ℕ) : Type 0 where
  pub done : List Message
  pub left : List Message
  pub rest : List ℕ
  pub frames_eq : frames ≡ done ++ left
  pub front_eq : front ≡ concat done ++ rest
  pub back_eq : rest ++ back ≡ concat left
  pub part : IsIncomplete rest
  pub done_frames : All IsFrame done
  pub left_frames : All IsFrame left

pub cut_lem :
    (frames : List Message) (front back : List ℕ)
    → All IsFrame frames
    → front ++ back ≡ concat frames
    → Cut frames front back
cut_lem [] [] back fs e = record {
  done = [];
  left = [];
  rest = [];
  frames_eq = refl;
  front_eq = refl;
  back_eq = e;
  part = inl (omega arith);
  done_frames = tt;
  left_frames = tt;
}
cut_lem [] (x ∷ front) back fs e = absurd (cc e)
cut_lem (m ∷ frames) front back fs e = elim (dec_le (length m) (length front)) [
  | no short ↦ record {
    done = [];
    left = m ∷ frames;
    rest = front;
    frames_eq = refl;
    front_eq = refl;
    back_eq = e;
    part = piece short;
    done_frames = tt;
    left_frames = fs;
  }
  | yes whole ↦
      let split =
        append-split (take (length m) front) m (omega (arith, length-take (length m) front))
          (regroup ∙ e) in
      let c = cut_lem frames (drop (length m) front) back fs.1 split.1 in
      record {
        done = m ∷ c.done;
        left = c.left;
        rest = c.rest;
        frames_eq = ap (λ t. m ∷ t) c.frames_eq;
        front_eq =
            sym (take-append-drop (length m) front)
            ∙ ap₂ ◌++◌ split.0 c.front_eq
            ∙ sym (append_assoc m (concat c.done) c.rest);
        back_eq = c.back_eq;
        part = c.part;
        done_frames = (fs.0, c.done_frames);
        left_frames = c.left_frames;
      }
]
  where
    regroup : take (length m) front ++ (drop (length m) front ++ back) ≡ front ++ back
    regroup =
        sym (append_assoc (take (length m) front) (drop (length m) front) back)
        ∙ ap (λ t. t ++ back) (take-append-drop (length m) front)

    piece : ¬ (length m ≤ length front) → IsIncomplete front
    piece short = elim (dec_le (length front) 2) [
      | yes few ↦ inl few
      | no more ↦
          let frame = fs.0 in
          let size : uint16_at front ≡ length m =
            sym (uint16_at-append front back (omega arith))
            ∙ ap uint16_at e
            ∙ uint16_at-append m (concat frames) (omega (arith, frame.longer))
            ∙ frame.header in
          inr (omega (arith, size))
    ]
