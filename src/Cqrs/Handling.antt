-- ===== src/Cqrs/Handling.antt =====
-- cqrs/command/handler.py and cqrs/query/handler.py: the template of a handler, whose hooks belong to the
-- application. With a context, `do_handle` stands for `do_handle_with_context`.
use pyfly.Common.{ℕ, Option}
use pyfly.Common.Effects.{
  Exception, type_error, World, Act, pure, raise, perform, ◌>>=◌, ◌>>◌, try_except,
}
use pyfly.Cqrs.Messages.{
  Value, exception, Message, Handler, Event, pre_process, do_handle, post_process, on_success,
  on_error, map_error,
}

-- `raise value`
abbrev pub raise_value : Value → Act Event Value
raise_value (exception exc) = raise exc
raise_value _ = raise type_error

module _ (world : World Event Value) (handler : Handler) (message : Message)
    (context : Option ℕ) where
  abbrev handle_body : Act Event Value
  handle_body = do
    perform world (pre_process handler message)
    result ← perform world (do_handle handler message context)
    perform world (post_process handler message result)
    perform world (on_success handler message result)
    pure result

  abbrev handle_error : Exception → Act Event Value
  handle_error exc = do
    perform world (on_error handler message exc)
    mapped ← perform world (map_error handler message exc)
    raise_value mapped

  unfoldable pub handle : Act Event Value
  handle = try_except handle_body handle_error
