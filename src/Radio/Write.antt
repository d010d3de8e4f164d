-- ===== src/Radio/Write.antt =====
-- radio2/src/radio.c: the loop of radio_send that pushes the frame out of the port.
use old_radio.Base.{
  ℕ, ◌+◌, ◌≤◌, ◌≡◌, refl, ap, ◌∙◌, arith, List, [], ◌∷◌, ◌++◌, length, take, drop, take-append-drop,
  length-drop,
}
use mathlib.Core.List.{append_assoc}
use old_radio.Radio.{Written, failed, accepted, write_loop}

-- The bytes that a script's writes accept.
pub capacity : List Written → ℕ
capacity [] = 0
capacity (failed ∷ script) = capacity script
capacity (accepted e ∷ script) = e + capacity script

-- Whatever the port does, what went out and what is left are the frame, in order: no byte is lost,
-- doubled or reordered by errors and short writes. Once the writes have accepted as many bytes as the
-- frame has, nothing is left.
pub write_loop-all :
    (script : List Written) (frame : List ℕ)
    → ((write_loop script frame).0 ++ (write_loop script frame).1 ≡ frame)
      × (length frame ≤ capacity script → (write_loop script frame).1 ≡ [])
unfolding write_loop capacity
write_loop-all [] [] = (refl, λ h. refl)
write_loop-all [] (b ∷ left) = (refl, λ h. absurd (omega arith))
write_loop-all (failed ∷ script) [] = (refl, λ h. refl)
write_loop-all (failed ∷ script) (b ∷ left) = write_loop-all script (b ∷ left)
write_loop-all (accepted e ∷ script) [] = (refl, λ h. refl)
write_loop-all (accepted e ∷ script) (b ∷ left) =
    let rest = write_loop-all script (drop e (b ∷ left)) in
    (
      append_assoc (take e (b ∷ left)) _ _
          ∙ ap (◌++◌ (take e (b ∷ left))) rest.0
          ∙ take-append-drop e (b ∷ left),
      λ h. rest.1 (omega (arith, length-drop e (b ∷ left))),
    )
