-- ===== src/Procrun/Handles/Messages.antt =====
-- Hooks, messages and the data of a handle: `apxHandleAddHook`, `apxHandleSendMessage`,
-- `apxHandlePostMessage`, `apxHandleGetUserData` and `apxHandleSetUserData`.
use boundary_event_sdk.Prelude.{
  ℕ, ◌≡◌, ◌≢◌, refl, Bool, true, false, ◌&&◌, ◌||◌, Option, none, some, List, [], ◌∷◌, ◌++◌, Bytes,
  take, drop, ltb, ◌==◌, if◌then◌else◌, arith, append-nil, append_assoc, sym, ◌∙◌, ◌⊎◌, inl, inr,
  if_elim, ==_iff,
}
use boundary_event_sdk.Procrun.Handles.{type_invalid}

-- `stAPXHANDLE` with what these functions use: `uMsg`, `wParam` and `lParam` of the message in the event, and
-- the data behind the handle, or the pointer in it
pub record Target : Type 0 where
  pub type : ℕ
  pub callback : Option ℕ
  pub hooks : List ℕ
  pub has_event : Bool
  pub has_user_data : Bool
  pub size : ℕ
  pub data_bytes : Bytes
  pub pointer : Option ℕ
  pub posted : Option (ℕ × ℕ × ℕ)

-- `APXHANDLE_HOOK_FIRST` is 0, and any other value adds the hook at the end.
unfoldable pub add_hook : (where_to : ℕ) (hook : Option ℕ) → Target → Bool × Target
add_hook where_to none t = (false, t)
add_hook where_to (some k) t =
    if t.type == type_invalid
    then (false, t)
    else if where_to == 0
    then (true, record t { hooks = k ∷ t.hooks })
    else (true, record t { hooks = t.hooks ++ (k ∷ []) })

abbrev pub first_call : Option ℕ → List ℕ
first_call none = []
first_call (some c) = c ∷ []

abbrev pub answer_of : Bool → Option ℕ → Bool
answer_of answer none = true
answer_of answer (some c) = answer

-- What `apxHandleSendMessage` returns, and the functions that it calls; `answer` is what the callback returns.
unfoldable pub send_message : (answer : Bool) → Target → Bool × List ℕ
send_message answer t =
    let rv = answer_of answer (t.callback) in
    if t.type == type_invalid then (false, []) else (rv, first_call (t.callback) ++ t.hooks)

-- `apxHandlePostMessage`, once the event is not signaled
unfoldable pub post_message : (msg w_param l_param : ℕ) → Target → Bool × Target
post_message msg w_param l_param t =
    if t.type == type_invalid
    then (false, t)
    else if t.has_event
    then (true, record t { posted = some (msg, w_param, l_param) })
    else (false, t)

-- The calls of one turn of `__apxHandleEventThread` after the event, and whether it goes on
unfoldable pub event_turn : (answer : Bool) → Target → (List ℕ × Bool) × Target
event_turn answer t = elim (t.posted) [
  | none ↦ (([], true), t)
  | some (msg, w, l) ↦
      if (msg == 0) || ((w == 0) && (l == 0))
      then (([], true), t)
      else ((first_call (t.callback) ++ t.hooks, answer), record t { posted = none })
]

-- A pointer to the data behind the handle, or the one that it was given
pub data UserData : Type 0 where
  behind : Bytes → UserData
  given : Option ℕ → UserData
  null : UserData

unfoldable pub get_user_data : Target → UserData
get_user_data t =
    if t.type == type_invalid
    then null
    else if t.has_user_data
    then behind (t.data_bytes)
    else given (t.pointer)

abbrev pub smaller : ℕ → ℕ → ℕ
smaller a b = if ltb a b then a else b

-- `apxHandleSetUserData`, of the bytes at `place`
unfoldable pub set_user_data :
    (place : Option ℕ) (bytes : Bytes) (size : ℕ) → Target → UserData × Target
set_user_data place bytes size t =
    let n = smaller (t.size) size in
    let copied = take n bytes ++ drop n (t.data_bytes) in
    if t.type == type_invalid
    then (null, t)
    else if t.has_user_data && ltb 0 (t.size)
    then (behind copied, record t { data_bytes = copied })
    else (given (t.pointer), record t { pointer = place })

abbrev pub add_all : List ℕ → Target → Target
add_all [] t = t
add_all (k ∷ ks) t = add_all ks ((add_hook 1 (some k) t).1)

-- Hooks that are added at the end stand behind the others in the order in which they were added.
hooks-add_all :
    (ks : List ℕ) (t : Target) → t.type ≢ type_invalid → (add_all ks t).hooks ≡ t.hooks ++ ks
unfolding add_hook
hooks-add_all [] t valid = sym (append-nil (t.hooks))
hooks-add_all (k ∷ ks) t valid =
    if_elim (λ (r : Bool × Target). (add_all ks (r.1)).hooks ≡ t.hooks ++ (k ∷ ks))
      (t.type == type_invalid) _ _ (λ z. absurd (valid ((==_iff (t.type) type_invalid).0 z)))
      (λ _.
        hooks-add_all ks (record t { hooks = t.hooks ++ (k ∷ []) }) valid
        ∙ append_assoc (t.hooks) (k ∷ []) ks)

is_not : (a b : ℕ) → a ≢ b → (a == b) ≡ false
is_not a b h = ground (arith, h)

params_given : (w l : ℕ) → (w ≢ 0) ⊎ (l ≢ 0) → ((w == 0) && (l == 0)) ≡ false
params_given w l (inl h) = ground (arith, h)
params_given w l (inr h) = ground (arith, h)

-- A message that is posted to a handle with an event is given to the callback and the hooks in the next turn
-- of the event's thread, if it and one of its parameters are not 0, and is then forgotten.
event_turn-post_message :
    (msg w l : ℕ) (answer : Bool) (t : Target)
    → t.type ≢ type_invalid
    → t.has_event ≡ true
    → msg ≢ 0
    → (w ≢ 0) ⊎ (l ≢ 0)
    → event_turn answer ((post_message msg w l t).1)
      ≡ ((first_call (t.callback) ++ t.hooks, answer), record t { posted = none })
unfolding event_turn post_message
event_turn-post_message msg w l answer t valid event sent some_given =
    rw (is_not (t.type) type_invalid valid, event)
      (rw (is_not msg 0 sent, params_given w l some_given) refl)
