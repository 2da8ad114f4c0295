-- ===== src/CodeGen/Frame/Saved.antt =====
-- What a function's prologue saves, its epilogue restores; and where the local variables lie.
use c.Base.{◌∙◌, ℕ, zero, suc, ◌+◌, ◌-◌, ◌*◌, ◌^◌, ◌<◌, ◌≡◌, ◌∷◌, arith, Text}
use c.Base.Int.{negsuc}
use c.CodeGen.Line.{sw, fp, numbered}
use c.CodeGen.Frame.{prolog, restore, framesize_name}
use c.CodeGen.Frame.Machine.{Machine, run}

-- The caller's registers `m` are saved in the frame above the stack pointer `base`: the word for
-- $8 on top of those for $9 to $15, then $fp and $ra.
pub record Frame (m : Machine) (base : ℕ) (m' : Machine) : Type 0 where
  pub sp_is : m'.reg 29 ≡ base
  pub fp_is : m'.reg 30 ≡ base + 36
  pub saved_ra : m'.mem (base + 40) ≡ m.reg 31
  pub saved_fp : m'.mem (base + 36) ≡ m.reg 30
  pub saved : (k : ℕ) → k < 8 → m'.mem (base + 32 - 4 * k) ≡ m.reg (8 + k)

-- a body that keeps to its part of the stack
pub record Keeps (m m' : Machine) : Type 0 where
  pub same_sp : m'.reg 29 ≡ m.reg 29
  pub same_fp : m'.reg 30 ≡ m.reg 30
  pub above : (a : ℕ) → m.reg 29 < a → m'.mem a ≡ m.mem a

-- the registers that a caller relies on
pub record Restored (m m' : Machine) : Type 0 where
  pub same_sp : m'.reg 29 ≡ m.reg 29
  pub same_fp : m'.reg 30 ≡ m.reg 30
  pub same_ra : m'.reg 31 ≡ m.reg 31
  pub temps : (k : ℕ) → k < 8 → m'.reg (8 + k) ≡ m.reg (8 + k)

-- a statement about eight temporaries is eight statements
below_eight {ℓ} :
    (P : ℕ → Type ℓ) → P 0 → P 1 → P 2 → P 3 → P 4 → P 5 → P 6 → P 7 → (k : ℕ) → k < 8 → P k
below_eight P a b d e f g h i zero lt = a
below_eight P a b d e f g h i (suc zero) lt = b
below_eight P a b d e f g h i (suc (suc zero)) lt = d
below_eight P a b d e f g h i (suc (suc (suc zero))) lt = e
below_eight P a b d e f g h i (suc (suc (suc (suc zero)))) lt = f
below_eight P a b d e f g h i (suc (suc (suc (suc (suc zero))))) lt = g
below_eight P a b d e f g h i (suc (suc (suc (suc (suc (suc zero)))))) lt = h
below_eight P a b d e f g h i (suc (suc (suc (suc (suc (suc (suc zero))))))) lt = i
below_eight P a b d e f g h i (suc (suc (suc (suc (suc (suc (suc (suc k)))))))) lt =
    absurd (omega arith)

Frame-Keeps :
    (m : Machine) (base : ℕ) (m₁ m₂ : Machine) → Frame m base m₁ → Keeps m₁ m₂ → Frame m base m₂
Frame-Keeps m base m₁ m₂ f k = record {
  sp_is = k.same_sp ∙ f.sp_is;
  fp_is = k.same_fp ∙ f.fp_is;
  saved_ra = k.above (base + 40) (omega (arith, f.sp_is)) ∙ f.saved_ra;
  saved_fp = k.above (base + 36) (omega (arith, f.sp_is)) ∙ f.saved_fp;
  saved = λ i lt. k.above (base + 32 - 4 * i) (omega (arith, f.sp_is)) ∙ f.saved i lt;
}

module _ (data_at : Text → ℕ) (name : Text) where
  pub prolog-Frame :
      (m : Machine) (base : ℕ)
      → data_at (framesize_name name) ≡ 32
      → m.reg 29 ≡ base + 40
      → base + 44 < 2 ^ 32
      → Frame m base (run data_at (prolog name) m)
  unfolding run prolog
  prolog-Frame m base framed top room = record {
    sp_is = ground arith;
    fp_is = ground arith;
    saved_ra = ground arith;
    saved_fp = ground arith;
    saved =
        below_eight _ (ground arith) (ground arith) (ground arith) (ground arith) (ground arith)
          (ground arith) (ground arith) (ground arith);
  }

  restore-Frame :
      (m m' : Machine) (base : ℕ)
      → Frame m base m'
      → m.reg 29 ≡ base + 40
      → base + 44 < 2 ^ 32
      → Restored m (run data_at (restore name) m')
  unfolding run restore
  restore-Frame m m' base f top room = record {
    same_sp = ground (arith, f.fp_is);
    same_fp = ground arith;
    same_ra = ground arith;
    temps =
        below_eight _ (ground (arith, f.saved 0)) (ground (arith, f.saved 1))
          (ground (arith, f.saved 2)) (ground (arith, f.saved 3)) (ground (arith, f.saved 4))
          (ground (arith, f.saved 5)) (ground (arith, f.saved 6)) (ground (arith, f.saved 7));
  }

  -- A function other than main, called with the stack pointer at `base + 40`: if its body keeps to
  -- the part of the stack at or below its own stack pointer, then after the epilogue $sp, $fp, $ra
  -- and $8 to $15 hold again what they held before the prologue.
  pub frame_restores :
      (m : Machine) (body : Machine → Machine) (base : ℕ)
      → data_at (framesize_name name) ≡ 32
      → m.reg 29 ≡ base + 40
      → base + 44 < 2 ^ 32
      → ((m' : Machine) → Keeps m' (body m'))
      → Restored m (run data_at (restore name) (body (run data_at (prolog name) m)))
  frame_restores m body base framed top room keeps =
      let f = prolog-Frame m base framed top room in
      restore-Frame m _ base (Frame-Keeps m base _ _ f (keeps _)) top room

  -- In a frame as the prologue of a function other than main leaves it, the word at -4(k+1)($fp),
  -- where the parser places the local variable number k from 0, saves register 8+k, for k below 8:
  -- after a store of any register to it, the epilogue loads the stored value into register 8+k.
  pub local_overwrites :
      (m m' : Machine) (base r k : ℕ)
      → Frame m base m'
      → base + 44 < 2 ^ 32
      → k < 8
      → (run data_at (sw (numbered r) (negsuc (4 * k + 3)) fp ∷ restore name) m').reg (8 + k)
        ≡ m'.reg r
  unfolding run restore
  local_overwrites m m' base r k f room lt =
      below_eight
        (λ k.
          (run data_at (sw (numbered r) (negsuc (4 * k + 3)) fp ∷ restore name) m').reg (8 + k)
          ≡ m'.reg r)
        (ground arith) (ground arith) (ground arith) (ground arith) (ground arith) (ground arith)
        (ground arith) (ground arith) k lt
