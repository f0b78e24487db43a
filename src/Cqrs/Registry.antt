-- ===== src/Cqrs/Registry.antt =====
-- cqrs/command/registry.py: the handlers of commands and of queries, by the type of the message.
use pyfly.Common.{
  String, Bool, true, false, ◌&&◌, Option, none, some, List, [], ◌∷◌, Dict, lookup, insert, delete,
  keys, mem, ◌≡◌, refl, ap, ◌∙◌, str_eq, lookup-insert, arith, if◌then◌else◌,
}
use pyfly.Common.Effects.{handler_not_found, Result, ok, err}
use pyfly.Cqrs.Messages.{Handler}

pub record HandlerRegistry : Type 0 where
  pub command_handlers : Dict Handler
  pub query_handlers : Dict Handler

-- A bean with the marker of its class and whether it is of the class the marker asks for.
pub data Marker : Type 0 where
  command query unmarked : Marker

pub record Bean : Type 0 where
  pub marker : Marker
  pub is_handler : Bool
  pub handler : Handler

abbrev pub new : HandlerRegistry
new = record { command_handlers = []; query_handlers = [] }

abbrev add : Option String → Handler → Dict Handler → Dict Handler
unfolding insert
add none handler handlers = handlers
add (some message_type) handler handlers = insert message_type handler handlers

unfoldable pub register_command_handler : Handler → HandlerRegistry → HandlerRegistry
unfolding insert
register_command_handler handler r = record r {
  command_handlers = add handler.handled_type handler r.command_handlers;
}

unfoldable pub register_query_handler : Handler → HandlerRegistry → HandlerRegistry
unfolding insert
register_query_handler handler r = record r {
  query_handlers = add handler.handled_type handler r.query_handlers;
}

abbrev pub is_some {ℓ} : {A : Type ℓ} → Option A → Bool
is_some none = false
is_some (some a) = true

unfoldable pub unregister_command_handler : String → HandlerRegistry → Bool × HandlerRegistry
unfolding lookup delete
unregister_command_handler message_type r = (
  is_some (lookup message_type r.command_handlers),
  record r { command_handlers = delete message_type r.command_handlers },
)

unfoldable pub unregister_query_handler : String → HandlerRegistry → Bool × HandlerRegistry
unfolding lookup delete
unregister_query_handler message_type r = (
  is_some (lookup message_type r.query_handlers),
  record r { query_handlers = delete message_type r.query_handlers },
)

abbrev pub found_or_raise : Option Handler → Result Handler
found_or_raise none = err handler_not_found
found_or_raise (some handler) = ok handler

unfoldable pub find_command_handler : String → HandlerRegistry → Result Handler
unfolding lookup
find_command_handler message_type r = found_or_raise (lookup message_type r.command_handlers)

unfoldable pub find_query_handler : String → HandlerRegistry → Result Handler
unfolding lookup
find_query_handler message_type r = found_or_raise (lookup message_type r.query_handlers)

unfoldable pub has_command_handler : String → HandlerRegistry → Bool
unfolding mem
has_command_handler message_type r = mem message_type (keys r.command_handlers)

unfoldable pub has_query_handler : String → HandlerRegistry → Bool
unfolding mem
has_query_handler message_type r = mem message_type (keys r.query_handlers)

abbrev pub discover_bean : Marker → Bool → Handler → HandlerRegistry → HandlerRegistry
unfolding register_command_handler register_query_handler
discover_bean command true handler r = register_command_handler handler r
discover_bean query true handler r = register_query_handler handler r
discover_bean _ _ handler r = r

unfoldable pub discover_from_beans : List Bean → HandlerRegistry → HandlerRegistry
unfolding register_command_handler register_query_handler
discover_from_beans [] r = r
discover_from_beans (bean ∷ beans) r =
    discover_from_beans beans (discover_bean bean.marker bean.is_handler bean.handler r)

abbrev pub keeps_later : Option Handler → Option Handler → Option Handler
keeps_later (some later) earlier = some later
keeps_later none earlier = earlier

abbrev is_marked : Marker → Marker → Bool
is_marked command command = true
is_marked query query = true
is_marked _ _ = false

abbrev is_for : String → Option String → Bool
is_for message_type none = false
is_for message_type (some handled) = str_eq handled message_type

-- The last handler of a type among the beans with a marker.
unfoldable pub last_handler : Marker → String → List Bean → Option Handler
last_handler marker message_type [] = none
last_handler marker message_type (bean ∷ beans) =
    keeps_later (last_handler marker message_type beans) (
      if is_marked marker bean.marker
        && bean.is_handler
        && is_for message_type bean.handler.handled_type
      then some bean.handler
      else none)

lookup-add :
    (message_type : String) (o : Option String) (handler : Handler) (handlers : Dict Handler)
    → lookup message_type (add o handler handlers)
      ≡ keeps_later
          (if is_for message_type o then some handler else none)
          (lookup message_type handlers)
unfolding add
lookup-add message_type none handler handlers = refl
lookup-add message_type (some handled) handler handlers =
    ground (arith, lookup-insert handled message_type handler handlers)

discover_bean-lookup :
    (message_type : String) (marker : Marker) (is_handler : Bool) (handler : Handler)
    (r : HandlerRegistry)
    → (lookup message_type (discover_bean marker is_handler handler r).command_handlers
        ≡ keeps_later
            (if is_marked command marker && is_handler && is_for message_type handler.handled_type
              then some handler
              else none)
            (lookup message_type r.command_handlers))
      × (lookup message_type (discover_bean marker is_handler handler r).query_handlers
          ≡ keeps_later
              (if is_marked query marker && is_handler && is_for message_type handler.handled_type
                then some handler
                else none)
              (lookup message_type r.query_handlers))
unfolding register_command_handler register_query_handler
discover_bean-lookup message_type command true handler r =
    (lookup-add message_type handler.handled_type handler r.command_handlers, refl)
discover_bean-lookup message_type query true handler r =
    (refl, lookup-add message_type handler.handled_type handler r.query_handlers)
discover_bean-lookup message_type command false handler r = (refl, refl)
discover_bean-lookup message_type query false handler r = (refl, refl)
discover_bean-lookup message_type unmarked true handler r = (refl, refl)
discover_bean-lookup message_type unmarked false handler r = (refl, refl)

keeps_later_assoc :
    (a b c : Option Handler) → keeps_later a (keeps_later b c) ≡ keeps_later (keeps_later a b) c
keeps_later_assoc none b c = refl
keeps_later_assoc (some a) b c = refl

lookup-discover_from_beans :
    (message_type : String) (beans : List Bean) (r : HandlerRegistry)
    → (lookup message_type (discover_from_beans beans r).command_handlers
        ≡ keeps_later
            (last_handler command message_type beans)
            (lookup message_type r.command_handlers))
      × (lookup message_type (discover_from_beans beans r).query_handlers
          ≡ keeps_later
              (last_handler query message_type beans)
              (lookup message_type r.query_handlers))
unfolding discover_from_beans last_handler
lookup-discover_from_beans message_type [] r = (refl, refl)
lookup-discover_from_beans message_type (bean ∷ beans) r =
    let later =
      lookup-discover_from_beans message_type beans
        (discover_bean bean.marker bean.is_handler bean.handler r) in
    let first = discover_bean-lookup message_type bean.marker bean.is_handler bean.handler r in
    (
      later.0
          ∙ (ap (keeps_later (last_handler command message_type beans)) first.0
              ∙ keeps_later_assoc (last_handler command message_type beans) _ _),
      later.1
          ∙ (ap (keeps_later (last_handler query message_type beans)) first.1
              ∙ keeps_later_assoc (last_handler query message_type beans) _ _),
    )

-- After the discovery among beans, the handler found for a type is the last one of that type among the
-- beans with the marker of its kind, else the one that was registered before, else an exception; so
-- commands and queries of one type do not meet.
pub find-discover_from_beans :
    (message_type : String) (beans : List Bean) (r : HandlerRegistry)
    → (find_command_handler message_type (discover_from_beans beans r)
        ≡ found_or_raise (
            keeps_later
              (last_handler command message_type beans)
              (lookup message_type r.command_handlers)))
      × (find_query_handler message_type (discover_from_beans beans r)
          ≡ found_or_raise (
              keeps_later
                (last_handler query message_type beans)
                (lookup message_type r.query_handlers)))
unfolding find_command_handler find_query_handler
find-discover_from_beans message_type beans r =
    let found = lookup-discover_from_beans message_type beans r in
    (ap found_or_raise found.0, ap found_or_raise found.1)
