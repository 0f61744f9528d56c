-- ===== src/Broker/Texts.antt =====
-- The texts of the answers of mbroker/mbroker.c, as the bytes of their UTF-8.
use project_so.Prelude.{ℕ, List, [], ◌∷◌}

-- "Ocorreu um erro ao eliminar a caixa"
abbrev pub removal_failed : List ℕ
removal_failed =
    79 ∷ 99 ∷ 111 ∷ 114 ∷ 114 ∷ 101 ∷ 117 ∷ 32 ∷ 117 ∷ 109 ∷ 32 ∷ 101 ∷ 114 ∷ 114 ∷ 111 ∷ 32 ∷ 97
    ∷ 111 ∷ 32 ∷ 101 ∷ 108 ∷ 105 ∷ 109 ∷ 105 ∷ 110 ∷ 97 ∷ 114 ∷ 32 ∷ 97 ∷ 32 ∷ 99 ∷ 97 ∷ 105 ∷ 120
    ∷ 97 ∷ []

-- "Ocorreu um erro palavra-passe errada"
abbrev pub removal_wrong_password : List ℕ
removal_wrong_password =
    79 ∷ 99 ∷ 111 ∷ 114 ∷ 114 ∷ 101 ∷ 117 ∷ 32 ∷ 117 ∷ 109 ∷ 32 ∷ 101 ∷ 114 ∷ 114 ∷ 111 ∷ 32 ∷ 112
    ∷ 97 ∷ 108 ∷ 97 ∷ 118 ∷ 114 ∷ 97 ∷ 45 ∷ 112 ∷ 97 ∷ 115 ∷ 115 ∷ 101 ∷ 32 ∷ 101 ∷ 114 ∷ 114 ∷ 97
    ∷ 100 ∷ 97 ∷ []

-- "Ocorreu um erro na criação da caixa"
abbrev pub creation_failed : List ℕ
creation_failed =
    79 ∷ 99 ∷ 111 ∷ 114 ∷ 114 ∷ 101 ∷ 117 ∷ 32 ∷ 117 ∷ 109 ∷ 32 ∷ 101 ∷ 114 ∷ 114 ∷ 111 ∷ 32 ∷ 110
    ∷ 97 ∷ 32 ∷ 99 ∷ 114 ∷ 105 ∷ 97 ∷ 195 ∷ 167 ∷ 195 ∷ 163 ∷ 111 ∷ 32 ∷ 100 ∷ 97 ∷ 32 ∷ 99 ∷ 97
    ∷ 105 ∷ 120 ∷ 97 ∷ []

-- "Ocorreu um erro: não existe a box"
abbrev pub no_such_box : List ℕ
no_such_box =
    79 ∷ 99 ∷ 111 ∷ 114 ∷ 114 ∷ 101 ∷ 117 ∷ 32 ∷ 117 ∷ 109 ∷ 32 ∷ 101 ∷ 114 ∷ 114 ∷ 111 ∷ 58 ∷ 32
    ∷ 110 ∷ 195 ∷ 163 ∷ 111 ∷ 32 ∷ 101 ∷ 120 ∷ 105 ∷ 115 ∷ 116 ∷ 101 ∷ 32 ∷ 97 ∷ 32 ∷ 98 ∷ 111 ∷ 120
    ∷ []

-- "Ocorreu um erro: palavra-passe errada"
abbrev pub wrong_password_text : List ℕ
wrong_password_text =
    79 ∷ 99 ∷ 111 ∷ 114 ∷ 114 ∷ 101 ∷ 117 ∷ 32 ∷ 117 ∷ 109 ∷ 32 ∷ 101 ∷ 114 ∷ 114 ∷ 111 ∷ 58 ∷ 32
    ∷ 112 ∷ 97 ∷ 108 ∷ 97 ∷ 118 ∷ 114 ∷ 97 ∷ 45 ∷ 112 ∷ 97 ∷ 115 ∷ 115 ∷ 101 ∷ 32 ∷ 101 ∷ 114 ∷ 114
    ∷ 97 ∷ 100 ∷ 97 ∷ []
