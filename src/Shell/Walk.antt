-- ===== src/Shell/Walk.antt =====
-- The tokens of a command in a sound tree: the look-up never faults, and the values of leaves are
-- collected in their order.
use tcpserver_lib.Base.{
  ℕ, ◌+◌, ◌≡◌, ◌<◌, refl, sym, ap, ◌∙◌, inl, inr, Option, none, some, List, [], ◌∷◌, ◌++◌, Outcome,
  ◌>>=◌, deref, length, length-append, All, arith, Bool-cases, Returns, Returns-bind, Returns-mono,
  append-nil,
}
use mathlib.Core.Path.{subst}
use tcpserver_lib.Strings.{leaf_value_holder_size}
use tcpserver_lib.Tlv.{tlv_bytes}
use tcpserver_lib.Tlv.Value.{tlv_of}
use tcpserver_lib.CmdTree.{Params, find_matching_param}
use tcpserver_lib.CmdTree.Match.{Children, Live, meant, find_matching_param-meant}
use tcpserver_lib.CmdTree.Members.{meant-holds}
use tcpserver_lib.Shell.{Shell, Environment}
use tcpserver_lib.Shell.Build.{cmd_not_found, Walk, is_complete, arrive_at, walk_step, walk}
use tcpserver_lib.Shell.Leaves.{none_Collected, Collected-append}
use tcpserver_lib.Shell.Sound.{Sound, Sound-tail}
use tcpserver_lib.Shell.Take.{Here, Taken, Walked, HasRoom, passed, arrive-Walked}

-- A round of the loop, from a live parameter.
walk_step-Walked :
    (env : Environment) (i : ℕ) (token : List ℕ) (w : Walk) (later : List (List ℕ))
    → Here w.shell.params w.param
    → Sound w.shell.params (token ∷ later)
    → length token < leaf_value_holder_size
    → HasRoom w.shell.tlv_buff 1
    → Returns (Walked w.shell (token ∷ []) later) (walk_step env i token w)
unfolding walk_step
walk_step-Walked env i token w later here sound short room = at_param w.param refl here
  where
    rest_sound : Sound w.shell.params later
    rest_sound = Sound-tail w.shell.params token later sound

    found : ℕ → Option ℕ → Outcome Walk
    found p o = arrive_at env.junk o token (record w { parent = some p })

    each :
        (p : ℕ) (cs : Children)
        → Live w.shell.params cs
        → All (λ (r, d). Returns (Walked w.shell (token ∷ []) later) (found p (some r))) cs
    each p [] live = tt
    each p ((r, d) ∷ cs) (here', live) = (
      rw here' (
          arrive-Walked env.junk r d token (record w { parent = some p }) later here' rest_sound
            short room d.cmd_type refl),
      each p cs live,
    )

    at_param :
        (o : Option ℕ)
        → w.param ≡ o
        → Here w.shell.params o
        → Returns (Walked w.shell (token ∷ []) later) (walk_step env i token w)
    at_param none e h = absurd h
    at_param (some p) e (q, live) =
        let (cs, tail, are, alive, (few, fewer)) = sound.options_are p q live in
        let run : walk_step env i token w ≡ found p (meant (env.choice i) token cs) =
          ap
            (λ o. deref o >>= λ p. deref (w.shell.params p) >>= λ q.
              find_matching_param w.shell.params (env.choice i) q.options token >>= found p)
            e
          ∙ ap
              (λ o. deref o >>= λ q.
                find_matching_param w.shell.params (env.choice i) q.options token >>= found p)
              live
          ∙ ap (λ o. find_matching_param w.shell.params (env.choice i) o token >>= found p) are
          ∙ ap (λ o. o >>= found p)
              (find_matching_param-meant w.shell.params (env.choice i) token cs tail alive few) in
        subst (Returns (Walked w.shell (token ∷ []) later)) (sym run) (
          meant-holds (λ o. Returns (Walked w.shell (token ∷ []) later) (found p o)) (env.choice i)
            token cs
            (passed w.shell token later rest_sound room none (some p) w.mode cmd_not_found
              (λ f. absurd (cc f)))
            (each p cs alive))

Taken-none : (tokens : List (List ℕ)) → Taken tokens []
Taken-none [] = refl
Taken-none (t ∷ tokens) = inl (Taken-none tokens)

-- What is taken of the first token goes before what is taken of the others.
Taken-cons :
    (t : List ℕ) (tokens us vs : List (List ℕ))
    → Taken (t ∷ []) us
    → Taken tokens vs
    → Taken (t ∷ tokens) (us ++ vs)
Taken-cons t tokens us vs (inl e) later = inl (subst (λ ws. Taken tokens (ws ++ vs)) (sym e) later)
Taken-cons t tokens us vs (inr (type, id, ws, e, e')) later = inr (
  type,
  id,
  vs,
  ap (λ xs. xs ++ vs) e ∙ ap (λ xs. (tlv_bytes (tlv_of type id t) ∷ xs) ++ vs) e',
  later,
)

Sound-none : (h : Params) (tokens : List (List ℕ)) → Sound h tokens → Sound h []
Sound-none h [] s = s
Sound-none h (t ∷ tokens) s = Sound-none h tokens (Sound-tail h t tokens s)

module _ (s : Shell) (t : List ℕ) (tokens : List (List ℕ)) (w : Walk)
    (d : Walked s (t ∷ []) tokens w) where
  -- The loop ends here.
  halted : Walked s (t ∷ tokens) [] w
  halted = record {
    units = d.units;
    taken =
        subst (Taken (t ∷ tokens)) (append-nil d.units)
          (Taken-cons t tokens d.units [] d.taken (Taken-none tokens));
    collected = d.collected;
    few = omega (arith, d.few);
    cursor_eq = d.cursor_eq;
    console_eq = d.console_eq;
    sound = Sound-none w.shell.params tokens d.sound;
    arrived = d.arrived;
  }

  -- The loop goes on.
  resumed : (w' : Walk) → Walked w.shell tokens [] w' → Walked s (t ∷ tokens) [] w'
  resumed w' d' = record {
    units = d.units ++ d'.units;
    taken = Taken-cons t tokens d.units d'.units d.taken d'.taken;
    collected =
        Collected-append s.tlv_buff w.shell.tlv_buff w'.shell.tlv_buff d.units d'.units d.collected
          d'.collected;
    few = omega (arith, length-append d.units d'.units, d.few, d'.few);
    cursor_eq = d'.cursor_eq ∙ d.cursor_eq;
    console_eq = d'.console_eq ∙ d.console_eq;
    sound = d'.sound;
    arrived = d'.arrived;
  }

-- In a sound tree (every parameter's options are live children followed by a null entry, fewer than
-- 10 of them with a name that begins with one of the tokens, and every leaf has a type with a
-- handler, a holder of 64 bytes and an id that fits a TLV), from a live parameter, with tokens of
-- fewer than 64 characters, and a valid buffer of a size other than 0 with room for a TLV for each,
-- up to 2^30 bytes in all, the loop over the tokens succeeds: what is written in the buffer is what
-- was before, followed by TLVs that hold a subsequence of the tokens in their order; cursor and
-- console name stay, the tree is sound still, and if the status is complete the walk ends at a live
-- parameter.
pub walk-Walked :
    (env : Environment) (i : ℕ) (tokens : List (List ℕ)) (w : Walk)
    → Here w.shell.params w.param
    → Sound w.shell.params tokens
    → All (λ t. length t < leaf_value_holder_size) tokens
    → HasRoom w.shell.tlv_buff (length tokens)
    → Returns (Walked w.shell tokens []) (walk env i tokens w)
unfolding walk
walk-Walked env i [] w here sound short room = record {
  units = [];
  taken = refl;
  collected = none_Collected w.shell.tlv_buff room.valid;
  few = omega arith;
  cursor_eq = refl;
  console_eq = refl;
  sound = sound;
  arrived = λ _. here;
}
walk-Walked env i (t ∷ tokens) w here sound (short, shorter) room =
    Returns-bind (Walked w.shell (t ∷ []) tokens) (Walked w.shell (t ∷ tokens) [])
      (walk_step env i t w) _
      (walk_step-Walked env i t w tokens here sound short
        (record { valid = room.valid; nonempty = room.nonempty; room = omega (arith, room.room) }))
      (λ w1 d. elim (Bool-cases (is_complete w1.status)) [
        | inr halts ↦ rw (halts, Returns) (halted w.shell t tokens w1 d)
        | inl goes_on ↦
            rw (goes_on, Returns)
              (Returns-mono (Walked w1.shell tokens []) (Walked w.shell (t ∷ tokens) [])
                (walk env (i + 1) tokens w1)
                (walk-Walked env (i + 1) tokens w1 (d.arrived goes_on) d.sound shorter (record {
                  valid = d.collected.valid;
                  nonempty = omega (arith, d.collected.grown, room.nonempty);
                  room = omega (arith, d.collected.next_eq, d.few, room.room);
                }))
                (resumed w.shell t tokens w1 d))
      ])
