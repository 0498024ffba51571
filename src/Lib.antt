-- ===== src/Lib.antt =====
-- photer_api: the gateway of Photer, an application to share photographs, with its payments and
-- storage services.
--
-- A request enters at a controller, which hands a command to a use case; a use case reads and
-- writes the tables through a repository, and answers with a `Notification` (Notification.antt) or
-- throws. Every handler is an `Action S A` (Base/Effect.antt): from a state to a result, which is a
-- value or an exception, and the next state. A state is the table of rows that the repository works
-- on, with what has been sent to other services where a use case sends something.
--
-- Base, with its children: tests, JavaScript strings, effects, dates, and Prisma's client
--   (Base/Prisma.antt). The client is a parameter: a record of its operations with what its
--   documentation says of them. Base/Prisma/Memory.antt is one client, on lists, which the examples
--   use; Base/Prisma/Calls.antt says how each call ends.
-- Query, with its children: apps/common/dto, the parameters of a query for a page and the page that
--   answers it. Query/Pager.antt is the client that sorts, skips and takes, as a parameter with
--   laws; Query/Memory.antt is one on lists; Query/Pages.antt and Query/Listing.antt say what a
--   page has.
-- Http: apps/gateway/src/core/exception-filters. What an endpoint answers; the modules named Api
--   are the controllers of each part, as functions of how the use case or the query has ended, and
--   Http/Statuses.antt has the statuses of their replies.
-- Notification: apps/gateway/base/notification/notification.ts.
-- Device: apps/gateway/src/features/device, the sessions of a user. Device/Termination.antt has the
--   use cases and the controller, Device/Laws.antt what they keep.
-- User: apps/gateway/src/features/user. User.antt is the entity, User/Repository.antt the tables
--   behind it (a user with its confirmation and its recovery is one row), User/Service.antt the
--   service, User/Queries.antt what is read for a response.
-- Auth: apps/gateway/src/features/auth and apps/gateway/src/core: tokens (Auth/Tokens.antt), login,
--   OAuth login, logout and refresh (Auth/Sessions.antt), registration (Auth/Registration.antt),
--   recovery of a password (Auth/Recovery.antt), the login through a provider (Auth/Oauth.antt,
--   with its table in Auth/Oauth/Repository.antt), and who a request is from
--   (Auth/Validation.antt). Auth/Sessions/Ended.antt is the table of devices as a step relation,
--   one step for each operation that changes it; Auth/Api.antt is the controller, and
--   Auth/Api/Requests.antt the requests of a session behind their guards.
-- Subscription: apps/gateway/src/features/subscription. A use case works on a `Shop`: the
--   subscriptions, the users, and the requests that went to the payments service
--   (Subscription/Shop.antt). Subscription/Queries.antt has the pages of subscriptions and of
--   payments, Subscription/Api.antt the controller.
-- Payments: apps/payments/src, the service behind the message queue. Its state is a `Ledger`: its
--   own subscriptions, the payments, and the events that it emitted to the gateway.
--   Payments/Stripe.antt has the webhook, Payments/Commands.antt what the messages of the gateway
--   run, Payments/Queries.antt the page of payments, Payments/Api.antt the acknowledgement of a
--   message and the reply to a webhook.
-- Post: apps/gateway/src/features/content/post. Post.antt is the aggregate, Post/Repository.antt
--   its two tables, Post/Commands.antt the use cases, Post/Queries.antt the query repository,
--   Post/Api.antt the controller; what the storage service answers is an argument.
-- Profile: apps/gateway/src/features/profile. Profile.antt is the entity and its table,
--   Profile/Commands.antt the use cases, over the profiles, the users and the published events,
--   Profile/Queries.antt the query repository, Profile/Api.antt the controller.
-- Storage: apps/storage/src/features. Storage.antt is the service of S3 (common/services), whose
--   state has the commands that were sent to S3 and the documents of one collection;
--   Storage/Commands.antt is the use cases of avatars and of photos with their repositories.
-- Input: apps/gateway/src/setup/pipes.setup.ts and the DTOs of the bodies (Input/Accounts.antt,
--   Input/Profiles.antt): which properties of a body fail, and the reply (Input/Pipe.antt);
--   Input/Rules.antt has what that leaves to the entities. Profile/BirthDate.antt reads a date of
--   birth, from apps/gateway/base/utils.
-- Checkout: the gateway and the payments service together, a subscription from its request to the
--   event of its completed checkout. Device/Store.antt is what the repository of devices promises,
--   without its rows.
--
-- Dates are milliseconds since the epoch, as numbers; `now i` is the i-th reading of the clock
-- within a call. A fresh UUID and a random number are arguments. @nestjs/jwt, bcrypt, date-fns,
-- nodemailer and Mongoose are parameters, each with the laws that its users rely on and an
-- instance that meets them; Stripe's client, S3's client, Google's reCAPTCHA and the URL parser
-- are parameters without laws. A page number and a page size are whole numbers, as the clients of
-- the API send them, and rows with equal keys are ordered by a function of the query. The files of
-- `Promise.all` settle in their order. class-validator is a parameter with laws for lengths and
-- empty texts. The limits of the columns of prisma/schema.prisma are modelled where nothing before
-- them keeps a text short: those of a profile, and the name of a user whom a provider registers
-- (Base/Columns.antt). The fuel of `decimal` is n + 1 for a number n, and that of a date that is
-- rolled over is its day + 1.
--
-- Not modelled: the decorators of swagger, and those that validate files and subscriptions; guards
-- but for those of the login and of the refresh token, and interceptors; configuration and the
-- start of the services; the controllers of the storage service, which check a payload and hand it
-- to a use case; and the texts of mails. They are glue around libraries that are not in the
-- repository.
pub mod Base
pub mod Notification
pub mod Checkout
pub mod Device
pub mod User
pub mod Auth
pub mod Subscription
pub mod Payments
pub mod Post
pub mod Profile
pub mod Query
pub mod Http
pub mod Input
pub mod Storage
