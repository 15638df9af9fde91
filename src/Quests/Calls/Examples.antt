-- ===== src/Quests/Calls/Examples.antt =====
-- Calls of quest functions, and the theorems on them.
use ship_server.Base.{ℕ, zero, suc, ◌≡◌, ◌≢◌, inr, refl, List, [], ◌∷◌, ◌++◌, u32_max, arith}
use ship_server.Quests.Sample.{team, server}
use ship_server.Quests.Functions.{arg}
use ship_server.Quests.Calls.{quest_function_dispatch}
use ship_server.Quests.Calls.Pushed.{Agree, quest_function_dispatch-pushed}
use ship_server.Quests.Calls.Stale.{IsStale, del_quest_flag-IsStale}

-- The levels of all four places, in registers 20 to 23.
abbrev levels_call : List ℕ
levels_call = 22 ∷ 1 ∷ 4 ∷ u32_max ∷ 20 ∷ 21 ∷ 22 ∷ 23 ∷ []

agree : (old old' : List ℕ) → Agree 8 (levels_call ++ old) (levels_call ++ old')
agree old old' zero lt = refl
agree old old' (suc zero) lt = refl
agree old old' (suc (suc zero)) lt = refl
agree old old' (suc (suc (suc zero))) lt = refl
agree old old' (suc (suc (suc (suc zero)))) lt = refl
agree old old' (suc (suc (suc (suc (suc zero))))) lt = refl
agree old old' (suc (suc (suc (suc (suc (suc zero)))))) lt = refl
agree old old' (suc (suc (suc (suc (suc (suc (suc zero))))))) lt = refl
agree old old' (suc (suc (suc (suc (suc (suc (suc (suc i)))))))) lt = absurd (omega arith)

not_16 : arg levels_call 0 ≢ 16
not_16 = λ q. absurd (omega arith)

not_17 : arg levels_call 0 ≢ 17
not_17 = λ q. absurd (omega arith)

quest_function_dispatch-pushed_example :
    quest_function_dispatch server team (levels_call ++ (9 ∷ []))
    ≡ quest_function_dispatch server team (levels_call ++ (300 ∷ 1 ∷ []))
quest_function_dispatch-pushed_example =
    quest_function_dispatch-pushed server team (levels_call ++ (9 ∷ []))
      (levels_call ++ (300 ∷ 1 ∷ [])) (omega arith) not_16 not_17 (agree (9 ∷ []) (300 ∷ 1 ∷ []))

-- A call that deletes flag 12, with an older word on the stack that is no register, or one that is.
del_quest_flag-IsStale_example : IsStale server team 17 12 300 (300 ∷ []) (9 ∷ 4 ∷ [])
del_quest_flag-IsStale_example =
    del_quest_flag-IsStale server team 17 12 300 300 9 [] (4 ∷ []) (inr refl) (omega arith)
      (omega arith) (omega arith) refl
