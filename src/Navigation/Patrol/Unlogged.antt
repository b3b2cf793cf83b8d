-- ===== src/Navigation/Patrol/Unlogged.antt =====
-- What a patrol does without an entry in its log (robot_brain/navigation/patrol_controller.py).
use robot_brain.Prelude.{ℕ, zero, suc, Bool, ◌≡◌, some, List, ◌&&◌, inl, inr, Bool-cases}
use robot_brain.Core.Builtins.{Builtins}
use robot_brain.Core.Results.{Result}
use robot_brain.Core.Actions.{
  Action, Keeps, bind-Keeps, seq-Keeps, pure-Keeps, get_state-Keeps, modify-Keeps, if-Keeps,
  if_some-Keeps, throw-Keeps,
}
use robot_brain.Navigation.Base.{
  MapIdentity, NavigationPose, NavigationClient, terminal, usable_for_persistent_memory,
}
use robot_brain.Navigation.Patrol.{
  PatrolEvent, Patrol, submit, submit_absolute, submit_relative, on_navigation, of_result, sleep,
  cancel, wait_terminal,
}

module _ {B : Builtins} {T : Type 0} (nav : NavigationClient B T) (others : T → Bool × T)
    (goal_timeout : B.Float) where
  -- The events are these.
  abbrev pub At : List (PatrolEvent B) → Patrol B T → Type 0
  At es p = p.events ≡ es

  navigation-At :
      {A : Type 0} (es : List (PatrolEvent B)) (m : Action T A)
      → Keeps (At es) (on_navigation nav others goal_timeout m)
  navigation-At es m = record { apply = λ p h. h }

  cancel-At : (es : List (PatrolEvent B)) → Keeps (At es) (cancel nav others goal_timeout)
  unfolding cancel
  cancel-At es = seq-Keeps (modify-Keeps _ (λ p h. h)) (
      bind-Keeps get_state-Keeps (λ p.
        if_some-Keeps
          (λ goal e. bind-Keeps (navigation-At es (nav.cancel (some goal))) (λ _. pure-Keeps _))
          (λ _. pure-Keeps _)))

  sleep-At : (es : List (PatrolEvent B)) → Keeps (At es) (sleep nav others goal_timeout)
  unfolding sleep
  sleep-At es = record {
    apply = λ p h. elim (Bool-cases (others p.outside).0) [
      | inl e ↦ rw (e, sleep) ((cancel-At es).apply (record p { outside = (others p.outside).1 }) h)
      | inr e ↦ rw (e, sleep) h
    ];
  }

  pub wait-At :
      (n : ℕ) (es : List (PatrolEvent B)) → Keeps (At es) (wait_terminal nav others goal_timeout n)
  unfolding wait_terminal
  wait-At zero es = pure-Keeps _
  wait-At (suc n) es = bind-Keeps get_state-Keeps (λ p.
      seq-Keeps
        (if-Keeps p.cancel_set
          (λ _. bind-Keeps (navigation-At es (nav.cancel p.active_goal_id)) (λ _. pure-Keeps _))
          (λ _. pure-Keeps _))
        (bind-Keeps (navigation-At es nav.get_state) (λ state.
          if-Keeps (terminal state.status) (λ _. pure-Keeps _)
            (λ _. seq-Keeps (sleep-At es) (wait-At n es)))))

  result-At :
      {A : Type 0} (es : List (PatrolEvent B)) (r : Result A)
      → Keeps (At es) (of_result nav others goal_timeout r)
  result-At es r = record { apply = λ p h. h }

  relative-At :
      (w : NavigationPose B) (es : List (PatrolEvent B)) (pose : NavigationPose B)
      → Keeps (At es) (submit_relative nav others goal_timeout w pose)
  unfolding submit_relative
  relative-At w es pose =
      bind-Keeps (result-At es _) (λ goal. navigation-At es (nav.set_relative_goal goal))

  absolute-At :
      (w : NavigationPose B) (es : List (PatrolEvent B)) (identity : MapIdentity)
      → Keeps (At es) (submit_absolute nav others goal_timeout w identity)
  unfolding submit_absolute
  absolute-At w es identity =
      bind-Keeps (result-At es _) (λ goal. navigation-At es (nav.set_absolute_goal goal))

  pub submit-At :
      (w : NavigationPose B) (es : List (PatrolEvent B))
      → Keeps (At es) (submit nav others goal_timeout w)
  unfolding submit
  submit-At w es = bind-Keeps (navigation-At es nav.get_localization_state) (λ l.
      bind-Keeps get_state-Keeps (λ p.
        if-Keeps (nav.supports_absolute_goals p.outside && usable_for_persistent_memory l)
          (λ _.
            if_some-Keeps (λ i e. absolute-At w es i)
              (λ _. if_some-Keeps (λ pose e. relative-At w es pose) (λ _. throw-Keeps _)))
          (λ _. if_some-Keeps (λ pose e. relative-At w es pose) (λ _. throw-Keeps _))))
