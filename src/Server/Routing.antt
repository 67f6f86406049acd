-- ===== src/Server/Routing.antt =====
-- Which requests reach the session host, and what every answer to a client satisfies.
use ziliu_ime.Base.{
  ℕ, ◌≤◌, ◌≡◌, refl, Bool, true, false, not, ◌&&◌, ◌||◌, Option, none, some, List, [], arith, leb,
  leb→le, ◌==◌, length, Bool-cases, ◌⊎◌, inl, inr,
}
use ziliu_ime.Ipc.Types.{
  Command, Status, ok, invalid_request, open_quick_menu, run_menu_action, get_theme_resource,
  get_settings, Request, Response, maximum_theme_chunk_bytes,
}
use ziliu_ime.Ipc.Versions.{is_command, is_empty}
use ziliu_ime.Engine.Interface.{Engine}
use ziliu_ime.Session.{SessionHost, handle}
use ziliu_ime.Server.{
  Providers, answer_to, done, has_foreign_fields, serve_quick_menu, serve_menu_action, theme_answer,
  serve_theme_resource, settings_answer, serve_settings, dispatch,
}

-- The commands that the server answers itself.
abbrev pub is_server_command : Command → Bool
is_server_command c =
    is_command c open_quick_menu
    || is_command c run_menu_action
    || is_command c get_theme_resource
    || is_command c get_settings

-- What the server itself answers: the id of the request, a theme chunk within the protocol's bound, and
-- no payload with an error.
pub record IsServed (r : Request) (a : Response) : Type 0 where
  pub request_id : a.request_id ≡ r.request_id
  pub chunk : length a.theme_chunk ≤ maximum_theme_chunk_bytes
  pub error : (a.status ≡ ok) ⊎ ((a.theme_chunk ≡ []) × (a.settings_text ≡ []))

answer_to-IsServed : (r : Request) (s : Status) → IsServed r (answer_to r s)
answer_to-IsServed r s = record { request_id = refl; chunk = omega arith; error = inr (refl, refl) }

serve_quick_menu-IsServed :
    (r : Request) (o : Option (ℕ → ℕ → Bool)) → IsServed r (serve_quick_menu r o)
unfolding serve_quick_menu
serve_quick_menu-IsServed r none = answer_to-IsServed r _
serve_quick_menu-IsServed r (some provider) =
    elim (Bool-cases (r.session_id == 0 && r.value == 0)) [
      | inl asked ↦ rw asked (answer_to-IsServed r (done (provider r.point_x r.point_y)))
      | inr other ↦ rw other (answer_to-IsServed r _)
    ]

serve_menu_action-IsServed :
    (r : Request) (o : Option (ℕ → Bool)) → IsServed r (serve_menu_action r o)
unfolding serve_menu_action
serve_menu_action-IsServed r none = answer_to-IsServed r _
serve_menu_action-IsServed r (some provider) =
    elim (Bool-cases (r.session_id == 0 && leb 1 r.value && leb r.value 2)) [
      | inl asked ↦ rw asked (answer_to-IsServed r (done (provider r.value)))
      | inr other ↦ rw other (answer_to-IsServed r _)
    ]

theme_answer-IsServed : (r : Request) (o : Option (List ℕ)) → IsServed r (theme_answer r o)
unfolding theme_answer
theme_answer-IsServed r none = answer_to-IsServed r _
theme_answer-IsServed r (some chunk) =
    elim (Bool-cases (leb (length chunk) maximum_theme_chunk_bytes)) [
      | inl fits ↦ rw fits (record {
        request_id = refl;
        chunk = leb→le (length chunk) maximum_theme_chunk_bytes fits;
        error = inl refl;
      })
      | inr large ↦ rw large (answer_to-IsServed r _)
    ]

serve_theme_resource-IsServed :
    (r : Request) (o : Option (List ℕ → List ℕ → ℕ → Option (List ℕ)))
    → IsServed r (serve_theme_resource r o)
unfolding serve_theme_resource
serve_theme_resource-IsServed r none = answer_to-IsServed r _
serve_theme_resource-IsServed r (some provider) =
    elim (Bool-cases (r.session_id == 0 && not (is_empty r.theme_id))) [
      | inl asked ↦ rw asked (theme_answer-IsServed r (provider r.theme_id r.resource r.value))
      | inr other ↦ rw other (answer_to-IsServed r _)
    ]

settings_answer-IsServed : (r : Request) (o : Option (List ℕ)) → IsServed r (settings_answer r o)
unfolding settings_answer
settings_answer-IsServed r none = answer_to-IsServed r _
settings_answer-IsServed r (some text) = record {
  request_id = refl;
  chunk = omega arith;
  error = inl refl;
}

serve_settings-IsServed :
    (r : Request) (o : Option (Option (List ℕ))) → IsServed r (serve_settings r o)
unfolding serve_settings
serve_settings-IsServed r none = answer_to-IsServed r _
serve_settings-IsServed r (some provided) = elim (Bool-cases (r.session_id == 0 && r.value == 0)) [
  | inl asked ↦ rw asked (settings_answer-IsServed r provided)
  | inr other ↦ rw other (answer_to-IsServed r _)
]

module _ (engine : Engine) (factory : Bool → Option engine.State) (is_alpha : ℕ → Bool)
    (providers : Providers) where
  -- A request with a field of another command, and the four commands that the server answers itself,
  -- leave the sessions as they are, and their answer has the request's id, a theme chunk within the
  -- protocol's bound, and no chunk and no settings with an error. Every other request goes to the
  -- session host, which so meets none of the four commands.
  pub dispatch_cases :
      (r : Request) (host : SessionHost engine.State)
      → (((has_foreign_fields r || is_server_command r.command) ≡ true)
          × ((dispatch engine factory is_alpha providers r host).0 ≡ host)
          × IsServed r (dispatch engine factory is_alpha providers r host).1)
        ⊎ (((has_foreign_fields r || is_server_command r.command) ≡ false)
            × (dispatch engine factory is_alpha providers r host
                ≡ handle engine factory is_alpha r host))
  unfolding dispatch
  dispatch_cases r host = elim (Bool-cases (has_foreign_fields r)) [
    | inl foreign ↦ rw foreign (inl (refl, refl, answer_to-IsServed r invalid_request))
    | inr own ↦ elim (Bool-cases (is_command r.command open_quick_menu)) [
      | inl quick ↦
          rw (own, quick) (inl (refl, refl, serve_quick_menu-IsServed r providers.quick_menu))
      | inr c1 ↦ elim (Bool-cases (is_command r.command run_menu_action)) [
        | inl menu ↦
            rw (own, c1, menu)
              (inl (refl, refl, serve_menu_action-IsServed r providers.menu_action))
        | inr c2 ↦ elim (Bool-cases (is_command r.command get_theme_resource)) [
          | inl theme ↦
              rw (own, c1, c2, theme)
                (inl (refl, refl, serve_theme_resource-IsServed r providers.theme_resource))
          | inr c3 ↦ elim (Bool-cases (is_command r.command get_settings)) [
            | inl settings ↦
                rw (own, c1, c2, c3, settings)
                  (inl (refl, refl, serve_settings-IsServed r providers.settings))
            | inr c4 ↦ rw (own, c1, c2, c3, c4) (inr (refl, refl))
          ]
        ]
      ]
    ]
  ]
