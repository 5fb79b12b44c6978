-- ===== src/Lib.antt =====
-- Versatile: networks that name devices, services and contents by flex IDs. The resolver gives out
-- the IDs and keeps them in a database. This library models four of its programs.
--
-- * resolver/2017/flexIDMnger_db.py, the manager with a local database: a client of an MQTT broker
--   that handles the messages join, leave, register, update and query of the devices. `on_message`
--   splits the topic and calls the handler; each handler works on the globals and on MySQL, and
--   publishes one reply. Files under Manager:
--     Manager.antt           the globals as the record `Manager`; `cursor.execute`, `db.commit`,
--                            `client.publish`, `client.subscribe` and the cache of devices
--     Manager/Database.antt  `db_proc` and `send_DBquery`
--     Manager/GenId.antt     `gen_flag`, `join_genID`, `register_genID`
--     Manager/Device.antt    the code that the handlers repeat: the sender, the existence check, the
--                            tests of a database result, and the `try` that replies in any case
--     Manager/Join.antt, Leave.antt, Register.antt, Update.antt, Query.antt
--                            the handlers of these names
--     Manager/Dispatch.antt  `on_connect`, `on_message` and the callbacks of the database client
--   The modules below these, and Manager/Quiet.antt and Manager/Answers.antt, hold proofs.
-- * resolver/2017/flexIDMnger.py, the manager that sends its statements to a broker and waits for the
--   reply, which another thread stores in `dbQuery_cache`. Files under Broker:
--     Broker/Proc.antt       a handler as a tree of commands, one for each access to what the threads
--                            share; the loop that draws a new ID and the loop that waits for a reply
--                            are one command each
--     Broker/Database.antt   `send_DBquery` and what the handlers do with the entry of a reply
--     Broker/GenId.antt      `join_genID`, `register_genID`; `gen_flag` is that of Manager/GenId.antt
--     Broker/Device.antt     the code that the handlers repeat
--     Broker/Join.antt, Leave.antt, Register.antt, Update.antt, Query.antt
--                            the handlers of these names
--     Broker/Dispatch.antt   `on_message`, `on_db_message`, and what the clients subscribe to
--     Broker/System.antt     the two threads. A schedule is a list of events in any order: a turn of
--                            the client's thread runs one command, with a number that stands for four
--                            random bytes; the others are what the brokers send. An exception that
--                            leaves a callback ends its thread for good, as with the paho of that time,
--                            whose loop_start does nothing once a thread was started.
--   Broker/Paths.antt, Sends.antt, Quiet.antt, Answers.antt and the modules below the others hold
--   proofs. The docstrings of the file stand in column 0, so it does not compile as it is; it is
--   read as if they were indented.
-- * resolver/2016/resolver.py, the resolver as a Flask service. Files under Resolver:
--     Resolver.antt           the global `manageNum`, the connection to MySQL, the replies
--     Resolver/ServiceId.antt `genServiceID`
--     Resolver/Join.antt, Update.antt, Leave.antt, Request.antt
--                             the handlers `Join`, `Update`, `Leave`, `Request`
--   Resolver/Counter.antt, Steps.antt and the modules below the handlers hold proofs; Steps.antt says
--   what a handler does as a list of statements, commits and numbers taken.
-- * resolver/2016/resolver_per.py, the resolver over socketIO, on the same database. Files under
--   Socket, named and divided as those under Resolver: Socket.antt has the state, which here also has
--   the session of the client and what was emitted. Socket/Answers.antt, Mirror.antt and the modules
--   below the handlers hold proofs.
--
-- All stand on a model of what they use of Python, under Py: values as `json.loads` makes them, with
-- the exceptions that an operation raises on a value of another type (Py/Value.antt), `str`, `repr`,
-- `split` and `int` of a text (Py/Text.antt), and statements that change state and may raise, where
-- what is written before an exception stays written (Py/Exec.antt). Base has what all parts share: the
-- decimal text of a number, association lists, tests. A number of Python is an ℕ or a ℤ, without a
-- bound, as in Python.
--
-- Parameters. The databases are not modelled: `World` (World.antt) and `Server` (Resolver.antt) are
-- records of `execute`, `commit` and `connect` on an abstract state, any of which may fail at any
-- time. Where a theorem needs a lookup to do what MySQL documents, the hypothesis is `IsLookup`
-- (Manager/Database/Lookup.antt): a SELECT by a column with a text that needs no escaping runs,
-- changes nothing, and finds rows exactly if the table has one. Tests/Sample.antt has a database
-- for which it holds. The table of printable characters past ASCII, and Python's limit on the depth of
-- calls, are parameters too.
--
-- Fuel. `join_genID` and `register_genID` call themselves; the depth of calls that is left is
-- their first argument, and at 0 they raise RecursionError, as Python does. The loop of
-- `join_genID` over cached IDs takes one round more than the cache has keys, which is enough: no
-- round passes a key that an earlier one has passed. The loops of `send_DBquery` have no fuel: a
-- turn that does not end one changes nothing. `extra_bits` of Py/Text/Float.antt counts the bits
-- of a float past 53; its fuel is 1024, the bits of the largest one. All else is recursion on
-- lists and numbers.
--
-- Simplified: a float of a JSON text stands by its `repr`, from which `int` gets its value
-- (Py/Text/Float.antt); `int` refuses digits that are not ASCII; prints raise for a value that is
-- no text and never for a character. Two keys of the device cache that are floats are the same if
-- their `repr` is, and a float is never the same as an `int`.
--
-- Not modelled: the scripts of client, what only prints or sleeps, the set-up of the connections, and
-- the C code of the network stack. Messages arrive one at a time, as the loop of the MQTT client
-- delivers them.
pub mod Base
pub mod Py
pub mod World
pub mod Manager
pub mod Resolver
pub mod Socket
pub mod Broker
mod Tests
