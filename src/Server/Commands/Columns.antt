-- ===== src/Server/Commands/Columns.antt =====
-- How the table of accounts that main.rs prints is laid out.
use liaozhai.Auth.Account.{Account}
use liaozhai.Auth.External.{UuidText}
use liaozhai.Common.{
  [], ap, append_assoc, codes, drop, drop-append_length, length, length-append, refl, replicate,
  sym, take, take-append_length, ◌++◌, ◌-◌, ◌∙◌, ◌∷◌, ◌≡◌,
}
use liaozhai.Server.Commands.{
  LocalTime, account_line, format_timestamp, header_line, last_login_text,
}
use liaozhai.Text.Template.{pad_right}

module _ (time : LocalTime) (uuids : UuidText) where
  -- Where identifiers are printed in 36 characters, as UUIDs are, every name in the table of accounts
  -- begins two characters left of the heading of its column.
  pub account_line-columns :
      (a : Account)
      → length (uuids.display a.id.uuid) ≡ 36
      → (take (length a.username) (drop 37 (account_line time uuids a)) ≡ a.username)
        × (take 8 (drop 39 header_line) ≡ codes "USERNAME")
  unfolding account_line codes
  account_line-columns a short =
      let id = uuids.display a.id.uuid in
      let rest =
        b' '
        ∷ (pad_right 21 (format_timestamp time uuids a.created_at)
            ++ b' ' ∷ last_login_text time uuids a.last_login_at) in
      let filled = replicate (16 - length a.username) b' ' in
      let width : length (id ++ b' ' ∷ []) ≡ 37 = length-append id (b' ' ∷ []) ∙ rw short refl in
      let split : account_line time uuids a
          ≡ (id ++ b' ' ∷ []) ++ (a.username ++ (filled ++ rest)) =
        ap (λ t. id ++ b' ' ∷ t) (append_assoc a.username filled rest)
        ∙ sym (append_assoc id (b' ' ∷ []) (a.username ++ (filled ++ rest))) in
      (
        ap (λ t. take (length a.username) (drop 37 t)) split
            ∙ ap
                (λ n.
                  take (length a.username)
                    (drop n ((id ++ b' ' ∷ []) ++ (a.username ++ (filled ++ rest)))))
                (sym width)
            ∙ ap (take (length a.username))
                (drop-append_length (id ++ b' ' ∷ []) (a.username ++ (filled ++ rest)))
            ∙ take-append_length a.username (filled ++ rest),
        refl,
      )
